-- ===== src/Tree.antt =====
-- The typed UI tree of src/wire (generated.rs `Node`, `NodeKind`, `StateBehaviour`, `MountSpec`; the
-- discriminator and the category of a kind). The members of a spec that hold no child node are the
-- opaque payload `Spec` of a `Wire`; so are bindings, texts and JSON values.
pub mod Style
pub mod Walk
pub mod Focus
pub mod Introspect
use fuaran_rs.Prelude.{String, Bool, true, false, Option, none, some, List, [], ◌∷◌, ◌++◌}
use fuaran_rs.Tree.Style.{SemanticStyle}

-- The payload types: what a kind's spec holds beside child nodes, `Binding`, `TextSource`, `JVal`.
pub record Wire : Type 1 where
  pub Spec : Type 0
  pub Binding : Type 0
  pub TextSource : Type 0
  pub Json : Type 0

-- The eight layout kinds, whose spec holds a flat `children: Vec<Node>`.
pub data LayoutKind : Type 0 where
  box split_panel tabs stepper summary_list disclosure modal scroll_area : LayoutKind

-- The kinds whose spec holds no child node and that no walk looks into.
pub data LeafKind : Type 0 where
  badge button callout chart code_block custom data_grid drawing embed fact : LeafKind
  file_upload filters form fragment_ref heading icon image label_value_row link : LeafKind
  list map markdown math media metric progress select skeleton sparkline toast tree : LeafKind

pub data LiveRegionKind : Type 0 where
  polite assertive off : LiveRegionKind

pub record Accessibility (W : Wire) : Type 0 where
  pub described_by : Option String
  pub hidden : Option W.Binding
  pub label : Option W.Binding
  pub labelled_by : Option String
  pub live_region : Option LiveRegionKind
  pub role : Option String
  pub speak : Option W.TextSource

-- The members of a node that hold no node.
pub record Traits (W : Wire) : Type 0 where
  pub accessibility : Option (Accessibility W)
  pub style : SemanticStyle
  pub tooltip : Option W.TextSource
  pub visible : Option W.Binding

-- `node id kind on_empty on_error on_loading fallback traits`; `on_error` is presence only.
mutual
  pub data Node (W : Wire) : Type 0 where
    node : String → Kind W → OptNode W → Bool → OptNode W → OptNode W → Traits W → Node W

  pub data Kind (W : Wire) : Type 0 where
    leaf : LeafKind → W.Spec → Kind W
    mount : List String → W.Spec → Kind W
    layout : LayoutKind → W.Spec → Nodes W → Kind W
    error_boundary : Node W → Node W → Kind W
    switch : W.Spec → Cases W → Node W → Kind W
    fragment_decl : W.Spec → Node W → Kind W

  pub data OptNode (W : Wire) : Type 0 where
    absent : OptNode W
    present : Node W → OptNode W

  pub data Nodes (W : Wire) : Type 0 where
    nil : Nodes W
    cons : Node W → Nodes W → Nodes W

  pub data Cases (W : Wire) : Type 0 where
    no_case : Cases W
    case : W.Spec → Node W → Cases W → Cases W

module _ {W : Wire} where
  abbrev pub id_of : Node W → String
  id_of (node i k e r l f t) = i

  abbrev pub kind_of : Node W → Kind W
  kind_of (node i k e r l f t) = k

  abbrev pub on_empty_of : Node W → OptNode W
  on_empty_of (node i k e r l f t) = e

  abbrev pub on_loading_of : Node W → OptNode W
  on_loading_of (node i k e r l f t) = l

  abbrev pub traits_of : Node W → Traits W
  traits_of (node i k e r l f t) = t

  abbrev pub to_list : Nodes W → List (Node W)
  to_list nil = []
  to_list (cons n ns) = n ∷ to_list ns

  abbrev pub of_list : List (Node W) → Nodes W
  of_list [] = nil
  of_list (n ∷ ns) = cons n (of_list ns)

  abbrev pub opt_list : OptNode W → List (Node W)
  opt_list absent = []
  opt_list (present n) = n ∷ []

  abbrev pub case_list : Cases W → List (Node W)
  case_list no_case = []
  case_list (case c n cs) = n ∷ case_list cs

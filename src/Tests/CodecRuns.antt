-- ===== src/Tests/CodecRuns.antt =====
-- Runs of the style edit and of base64url.
use fuaran_rs.Prelude.{none, ◌⊎◌, ℕ, List, All, true, ◌≡◌, refl, some, [], ◌∷◌, arith}
use fuaran_rs.Tree.Style.{SemanticStyle, default_style, loud, brand}
use fuaran_rs.Ops.Path.{codes, is_field, is_field_start, is_field_char}
use fuaran_rs.Diff.{style_edit}
use fuaran_rs.Diff.Laws.{in_style, apply-style_edit}
use fuaran_rs.Teleport.Base64Url.{encode, letter, decode}
use fuaran_rs.Teleport.Base64Url.RoundTrip.{decode-encode}
use fuaran_rs.Tests.Demo.{demo, tables, text_node}
use fuaran_rs.Tree.{Node}
use fuaran_rs.Tree.Focus.{focus, find_node_mut}
use fuaran_rs.Ops.{ok, TreeOp}
use fuaran_rs.Ops.Apply.{noted, apply}

abbrev loud_style : SemanticStyle
loud_style = record default_style { emphasis = loud; tone = brand }

abbrev alone : Node demo
alone = text_node "a"

apply-style_edit_example :
    ((style_edit {W = demo} "a" default_style loud_style ≡ none) × (default_style ≡ loud_style))
    ⊎ ((op : TreeOp demo) × (style_edit "a" default_style loud_style ≡ some op)
        × (apply tables alone op ≡ ok (in_style loud_style alone, noted op))
        × (find_node_mut (in_style loud_style alone) "a"
            ≡ some (in_style loud_style alone, λ m. m)))
unfolding focus
apply-style_edit_example = apply-style_edit tables alone alone (λ m. m) "a" refl loud_style

man : encode (codes "Man!") ≡ codes "TWFuIQ"
unfolding encode letter
man = refl

decode-encode_example : decode (encode (codes "Man!")) ≡ some (codes "Man!")
decode-encode_example =
    decode-encode (codes "Man!") (omega arith, (omega arith, (omega arith, (omega arith, tt))))

abbrev sort_key : List (List ℕ)
sort_key = codes "sort" ∷ codes "key_2" ∷ []

fields : All (λ f. is_field f ≡ true) sort_key
unfolding is_field is_field_start is_field_char
fields = (refl, (refl, tt))

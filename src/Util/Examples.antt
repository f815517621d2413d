-- ===== src/Util/Examples.antt =====
-- Runs of the helpers of src/util.rs on concrete inputs.
use apb.Prelude.{ℕ, zero, suc, ◌≡◌, refl, some, List, [], ◌∷◌, arith, All, ok, err, codes}
use apb.Bytes.{IsByte}
use apb.Util.Hex.{hex}
use apb.Util.Base64.{decode_base64, encode_base64, decode_base64-encode_base64}
use apb.Util.Key.{parse_key, parse_key-hex}
use apb.Util.Json.{Denotes, json_escape, json_escape-Denotes}
use apb.Util.Paths.{Answer, safe_rel, unsafe_path, empty_path, absolute_path, split}
use apb.Util.Paths.Entries.{safe_rel-Answer}

decode_base64-encode_base64_example :
    decode_base64 (encode_base64 (171 ∷ 0 ∷ 255 ∷ 7 ∷ [])) ≡ some (171 ∷ 0 ∷ 255 ∷ 7 ∷ [])
decode_base64-encode_base64_example =
    decode_base64-encode_base64 (171 ∷ 0 ∷ 255 ∷ 7 ∷ [])
      (omega arith, (omega arith, (omega arith, (omega arith, tt))))

repeat : ℕ → ℕ → List ℕ
repeat zero b = []
repeat (suc n) b = b ∷ repeat n b

repeat-IsByte : (n b : ℕ) → IsByte b → All IsByte (repeat n b)
unfolding repeat
repeat-IsByte zero b h = tt
repeat-IsByte (suc n) b h = (h, repeat-IsByte n b h)

parse_key-hex_example : parse_key (hex (repeat 32 171)) ≡ ok (repeat 32 171)
parse_key-hex_example =
    parse_key-hex (repeat 32 171) (repeat-IsByte 32 171 (omega arith)) (unfold repeat in refl)

json_escape-Denotes_example : Denotes (json_escape (97 ∷ 34 ∷ 10 ∷ 1 ∷ [])) (97 ∷ 34 ∷ 10 ∷ 1 ∷ [])
json_escape-Denotes_example = json_escape-Denotes (97 ∷ 34 ∷ 10 ∷ 1 ∷ [])

safe_rel-Answer_example : Answer (codes "a/./b//c/") (safe_rel (codes "a/./b//c/"))
safe_rel-Answer_example = safe_rel-Answer (codes "a/./b//c/")

safe_rel_entries : safe_rel (codes "a/./b//c/") ≡ ok (codes "a/b/c")
unfolding safe_rel split
safe_rel_entries = refl

safe_rel_parent : safe_rel (codes "a/../c") ≡ err unsafe_path
unfolding safe_rel split
safe_rel_parent = refl

safe_rel_empty : safe_rel (codes "./") ≡ err empty_path
unfolding safe_rel split
safe_rel_empty = refl

safe_rel_absolute : safe_rel (codes "/etc") ≡ err absolute_path
unfolding safe_rel split
safe_rel_absolute = refl

-- ===== src/Registry/Digest.antt =====
-- internal/definition/registry.go: draftDigest, and the operations of a Go map that the file uses.
use tailapps.Prelude.{
  ℕ, String, not, Option, none, some, List, [], ◌∷◌, ◌++◌, str_eq, str_ltb, if◌then◌else◌, map,
  filter,
}
use Prim.Native.String
use tailapps.Registry.Tables.{Sources, Host}

-- `s[path]`, with whether the path is present.
unfoldable pub lookup : String → Sources → Option (List ℕ)
lookup path [] = none
lookup path ((key, content) ∷ rest) =
    let later = lookup path rest in if str_eq key path then some content else later

-- `s[path]`, where a missing path gives no bytes.
abbrev pub content_at : Option (List ℕ) → List ℕ
content_at none = []
content_at (some content) = content

-- `s[path] = content`
unfoldable pub assign : String → List ℕ → Sources → Sources
assign path content [] = (path, content) ∷ []
assign path content ((key, old) ∷ rest) =
    let later = assign path content rest in
    if str_eq key path then (key, content) ∷ rest else (key, old) ∷ later

-- `delete(s, path)`
unfoldable pub remove : String → Sources → Sources
remove path s = filter (λ entry. not (str_eq entry.0 path)) s

-- `sort.Strings`
unfoldable pub insert_key : String → List String → List String
insert_key key [] = key ∷ []
insert_key key (k ∷ ks) =
    let later = insert_key key ks in if str_ltb k key then k ∷ later else key ∷ k ∷ ks

unfoldable pub sort_strings : List String → List String
sort_strings [] = []
sort_strings (k ∷ ks) = insert_key k (sort_strings ks)

unfoldable pub keys : Sources → List String
keys s = map (λ entry. entry.0) s

-- The bytes that draftDigest writes into its hash for a list of keys.
unfoldable pub written : Host → Sources → List String → List ℕ
written h s [] = []
written h s (key ∷ rest) = 0 ∷ (h.bytes key ++ 0 ∷ (content_at (lookup key s) ++ written h s rest))

unfoldable pub preimage : Host → Sources → List ℕ
preimage h s = written h s (sort_strings (keys s))

-- The text that the file writes for the SHA-256 sum of some bytes.
unfoldable pub digest_text : Host → List ℕ → String
digest_text h content = String.◌++◌ "sha256:" (h.encode_to_string (h.sum256 content))

unfoldable pub draft_digest : Host → Sources → String
draft_digest h s = digest_text h (preimage h s)

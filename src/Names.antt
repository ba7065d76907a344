-- ===== src/Names.antt =====
-- The functions of src/zdns/util.go on domain names.
pub mod Labels
pub mod Beneath
pub mod Authority
pub mod Descent
use zdns.Prelude.{
  ℕ, zero, suc, ◌+◌, ◌≡◌, Bool, true, false, not, ◌&&◌, ◌||◌, Option, none, some, List, [], ◌∷◌,
  ◌++◌, length, take, drop, leb, ◌==◌, if◌then◌else◌, Text, codes, text_eq, to_lower, has_suffix,
  trim_suffix, last_index,
}

abbrev pub dot : Text
dot = b'.' ∷ []

-- `none` is `log.Fatal`
unfoldable pub dot_name : Text → Option Text
dot_name name =
    if text_eq name dot then some name else if has_suffix name dot then none else some (name ++ dot)

-- the names that it takes
abbrev pub IsDottable : Text → Type 0
IsDottable name = (text_eq name dot || not (has_suffix name dot)) ≡ true

unfoldable pub remove_trailing_dot_if_not_root : Text → Text
remove_trailing_dot_if_not_root name = if text_eq name dot then name else trim_suffix name dot

-- the results are the flag and the name in lower case without its trailing dot
unfoldable pub name_is_beneath : Text → Text → Bool × Text
name_is_beneath name layer =
    let lower = trim_suffix (to_lower name) dot in
    let layer' = to_lower layer in
    if text_eq layer' dot
    then (true, lower)
    else if has_suffix lower (dot ++ layer') || text_eq lower layer'
    then (true, lower)
    else (false, [])

abbrev pub in_addr_arpa : Text
in_addr_arpa = codes "in-addr.arpa"

-- `name[idx+1:]` for an index that may be -1
unfoldable pub after : Option ℕ → Text → Text
after none name = name
after (some i) name = drop (i + 1) name

-- the end of `nextAuthority`: `at` is `strings.LastIndex(name, layer)`
unfoldable pub next_in_layer : Text → Option ℕ → Text
unfolding last_index after
next_in_layer name none = name
next_in_layer name (some zero) = name
next_in_layer name (some (suc idx)) =
    if leb (length name) (idx + 1) then name else after (last_index (take idx name) dot) name

-- `none` is the error that the server did not provide appropriate resolvers
unfoldable pub next_authority : Text → Text → Option Text
unfolding next_in_layer
next_authority name layer =
    if has_suffix name in_addr_arpa && text_eq layer dot
    then some in_addr_arpa
    else if text_eq name dot && text_eq layer dot
    then some dot
    else elim (last_index name dot) [
      | none ↦ some name
      | some idx ↦
          if leb (length name) (idx + 1)
          then some name
          else if text_eq layer dot
          then some (drop (idx + 1) name)
          else if not (has_suffix name layer)
          then none
          else some (next_in_layer name (last_index name layer))
    ]

-- ===== src/Story/Words.antt =====
-- `splitDeclaredList` and `referencedDecisions` of story.ts.
use praxis_bound.Common.{
  ℕ, Bool, not, ◌||◌, List, [], ◌∷◌, ◌++◌, ◌==◌, if◌then◌else◌, filter, flat_map, Text, text_eq,
  contains,
}

-- /[ \t\n]/
abbrev is_list_space : ℕ → Bool
is_list_space c = c == b' ' || (c == 9 || c == 10)

-- the entries of `value`, of which `word` is the first so far
words_from : Text → Text → List Text
words_from word [] = word ∷ []
words_from word (c ∷ value) =
    let next = words_from [] value in
    let more = words_from (word ++ c ∷ []) value in if is_list_space c then word ∷ next else more

-- A run of separators leaves empty entries between them, which are dropped all the same.
unfoldable pub split_declared_list : Text → List Text
unfolding words_from
split_declared_list value = filter (λ entry. not (text_eq entry [])) (words_from [] value)

-- [...new Set(values)], behind the entries `seen`
unfoldable pub new_entries : List Text → List Text → List Text
new_entries seen [] = []
new_entries seen (value ∷ values) =
    let again = new_entries seen values in
    let first = value ∷ new_entries (value ∷ seen) values in
    if contains seen value then again else first

unfoldable pub referenced_decisions : List Text → List Text
unfolding new_entries split_declared_list
referenced_decisions decisions = new_entries [] (flat_map split_declared_list decisions)

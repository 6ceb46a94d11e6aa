-- ===== src/Declarations.antt =====
-- packages/core/src/declarations.ts: the Markdown declaration subset that every contract reader
-- shares. The index loops of the source are recursions on the rounds that are left.
pub mod Fences
mod Tests
pub mod Trim
use praxis_bound.Common.{
  ℕ, zero, suc, ◌+◌, ◌-◌, ◌≤◌, ◌<◌, ◌≡◌, refl, sym, ap, ◌∙◌, ◌≢◌, ◌↔◌, ◌⊎◌, inl, inr, Bool, true,
  false, not, ◌&&◌, ◌||◌, Option, none, some, List, [], ◌∷◌, ◌++◌, map, reverse, append-nil,
  append_assoc, arith, ltb, leb, ◌==◌, if◌then◌else◌, ==_iff, Bool-cases, Option-cases, and_true,
  not-true, is_none, or_else, length, get_elem?, get_or, take, drop, all, any, length-append,
  take-append-drop, take-length, drop-length, append-eq-nil, all-append, All, All-append, Text, lit,
  text_eq, text_eq_sound, text_eq_refl, text_eq_iff, contains, starts_with, ends_with, slice,
  strip_ends, index_of, includes, split, join, last_or, Issue, each, each_clean, each_inv, Lacks,
  onto_first, split-append, join-split, split-Lacks, split_one, split-join,
}

-- isDeclarationSpace; `none` is the `undefined` of an index out of range
unfoldable pub is_declaration_space : Option ℕ → Bool
is_declaration_space none = false
is_declaration_space (some c) = c == b' ' || c == 9 || c == 13

-- while (start < end && isDeclarationSpace(line[start])) start += 1
skip_start : Text → ℕ → ℕ → ℕ
skip_start line zero start = start
skip_start line (suc left) start =
    let next = skip_start line left (suc start) in
    if is_declaration_space (get_elem? line start) then next else start

-- while (end > start && isDeclarationSpace(line[end - 1])) end -= 1, where `end` is `start + left`
skip_end : Text → ℕ → ℕ → ℕ
skip_end line start zero = start
skip_end line start (suc left) =
    let next = skip_end line start left in
    if is_declaration_space (get_elem? line (start + left)) then next else start + suc left

-- trimDeclarationText
unfoldable pub trim : Text → Text
unfolding is_declaration_space skip_start skip_end
trim line =
    let start = skip_start line (length line) 0 in
    let end = skip_end line start (length line - start) in slice start end line

unfoldable pub fence_run : Text → ℕ → ℕ
fence_run [] character = 0
fence_run (c ∷ line) character = if c == character then suc (fence_run line character) else 0

pub data Declaration : Type 0 where
  declaration : (label value : Text) → Declaration
  entry : Text → Declaration

named : Text → Text → Text → Declaration
named bullet label value = if text_eq label [] then entry bullet else declaration label (trim value)

unfoldable pub split_declaration : Text → Declaration
unfolding named trim
split_declaration bullet = elim (index_of (lit ": ") bullet) [
  | some separator ↦ named bullet (trim (slice 0 separator bullet)) (drop (separator + 2) bullet)
  | none ↦
      if ends_with (lit ":") bullet
      then named bullet (trim (slice 0 (length bullet - 1) bullet)) []
      else entry bullet
]

-- The two variables of `readContentLines`; outside a fence `fence_length` is 0.
pub record Fence : Type 0 where
  pub fence_character : ℕ
  pub fence_length : ℕ

abbrev pub no_fence : Fence
no_fence = record { fence_character = 0; fence_length = 0 }

-- the character that may open a fence, `none` for ""
pub fence_opener : Text → Option ℕ
fence_opener line =
    if starts_with (b'`' ∷ []) line
    then some b'`'
    else if starts_with (b'~' ∷ []) line
    then some b'~'
    else none

pub open_fence : Fence → Text → Option ℕ → Fence × Option Text
open_fence fence line none = (fence, some line)
open_fence fence line (some character) =
    let run = fence_run line character in
    if leb 3 run
    then (record { fence_character = character; fence_length = run }, none)
    else (fence, some line)

pub close_fence : Fence → Text → Fence × Option Text
close_fence fence line =
    let run = fence_run line fence.fence_character in
    if starts_with (fence.fence_character ∷ []) line
      && (leb fence.fence_length run && (length line == run))
    then (record fence { fence_length = 0 }, none)
    else (fence, none)

-- one round: the line that it yields, if any
unfoldable pub content_line : Fence → Text → Fence × Option Text
content_line fence raw =
    let line = trim raw in
    if fence.fence_length == 0
    then open_fence fence line (fence_opener line)
    else close_fence fence line

abbrev yielded : Option Text → List Text → List Text
yielded none lines = lines
yielded (some line) lines = line ∷ lines

unfoldable pub content_lines : Fence → List Text → List Text
content_lines fence [] = []
content_lines fence (raw ∷ rest) =
    let r = content_line fence raw in yielded r.1 (content_lines r.0 rest)

unfoldable pub read_content_lines : Text → List Text
unfolding content_lines content_line open_fence close_fence fence_opener fence_run trim
read_content_lines source = content_lines no_fence (split 10 source)

-- The variables of `readSectionBullets`.
pub record Bullets : Type 0 where
  pub count : ℕ
  pub in_section : Bool
  pub bullets : List Text

-- the text behind a bullet marker, "" without one
unfoldable pub bullet_text : Text → Text
bullet_text line =
    if starts_with (b'*' ∷ b' ' ∷ []) line || starts_with (b'-' ∷ b' ' ∷ []) line
    then trim (drop 2 line)
    else []

unfoldable pub bullet_line : Text → Bullets → Text → Bullets
unfolding bullet_text
bullet_line heading s line =
    if starts_with (b'#' ∷ []) line
    then (let here = text_eq line heading in
        record s { in_section = here; count = if here then s.count + 1 else s.count })
    else if not s.in_section
    then s
    else if text_eq (bullet_text line) []
    then s
    else record s { bullets = s.bullets ++ bullet_text line ∷ [] }

unfoldable pub bullets_from : Text → Bullets → List Text → Bullets
bullets_from heading s [] = s
bullets_from heading s (line ∷ lines) = bullets_from heading (bullet_line heading s line) lines

unfoldable pub read_section_bullets : Text → Text → Bullets
unfolding bullets_from bullet_line read_content_lines
read_section_bullets source heading =
    bullets_from heading (record { count = 0; in_section = false; bullets = [] })
      (read_content_lines source)

-- readDeclarationSection: the count of the headings, and the entries
unfoldable pub read_declaration_section : Text → Text → ℕ × List Declaration
unfolding read_section_bullets split_declaration
read_declaration_section source heading =
    let section = read_section_bullets source heading in
    (section.count, map split_declaration section.bullets)

-- /[^ \t\r\n\v\f]/
unfoldable pub is_c_space : ℕ → Bool
is_c_space c = c == b' ' || (leb 9 c && leb c 13)

unfoldable pub non_space : Text → Bool
unfolding is_c_space
non_space s = any (λ c. not (is_c_space c)) s

unfoldable pub placeholders : List Text
unfolding lit
placeholders =
    lit "*"
    ∷ lit "-"
    ∷ lit "TBD"
    ∷ lit "tbd"
    ∷ lit "TODO"
    ∷ lit "todo"
    ∷ lit "N/A"
    ∷ lit "n/a"
    ∷ lit "..."
    ∷ []

-- the tests that `trimmed` is a pair of backticks around something
unfoldable pub is_quoted : Text → Bool
is_quoted s = leb 2 (length s) && (starts_with (b'`' ∷ []) s && ends_with (b'`' ∷ []) s)

unfoldable pub read_exact_literal : Text → Option Text
unfolding is_quoted non_space placeholders trim
read_exact_literal value =
    let trimmed = trim value in
    let inner = strip_ends trimmed in
    if not (is_quoted trimmed)
    then none
    else if text_eq inner []
        || (includes (b'`' ∷ []) inner || (not (non_space inner) || contains placeholders inner))
    then none
    else some inner

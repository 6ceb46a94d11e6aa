-- ===== src/Repository/Makefile.antt =====
-- `scanMakefile` of repository.ts.
use praxis_bound.Common.{
  ℕ, zero, suc, Bool, true, false, not, ◌&&◌, ◌||◌, List, [], ◌∷◌, ◌==◌, if◌then◌else◌, length,
  drop, Text, lit, starts_with, ends_with, includes, split,
}

abbrev pub is_blank : ℕ → Bool
is_blank c = c == 32 || c == 9

unfoldable pub drop_while : (ℕ → Bool) → Text → Text
drop_while skip [] = []
drop_while skip (c ∷ s) = let rest = drop_while skip s in if skip c then rest else c ∷ s

-- (?:[ \t]+|$)
abbrev pub ends_word : Text → Bool
ends_word [] = true
ends_word (c ∷ s) = is_blank c

unfoldable pub starts_word : Text → Text → Bool
starts_word word line = starts_with word line && ends_word (drop (length word) line)

-- [ \t]+ behind a modifier
abbrev pub has_blank : Text → Bool
has_blank [] = false
has_blank (c ∷ s) = is_blank c

-- `left` modifiers at most, and `define`
unfoldable pub is_define : ℕ → Text → Bool
unfolding starts_word drop_while
is_define zero line = starts_word (lit "define") line
is_define (suc left) line =
    let behind = λ (word : Text). drop (length word) line in
    let override = lit "override" in
    let export = lit "export" in
    starts_word (lit "define") line
    || ((starts_with override line
          && (has_blank (behind override)
              && is_define left (drop_while is_blank (behind override))))
        || (starts_with export line
            && (has_blank (behind export) && is_define left (drop_while is_blank (behind export)))))

-- -?s?include
unfoldable pub is_include : Text → Bool
unfolding starts_word
is_include line =
    starts_word (lit "include") line
    || (starts_word (lit "sinclude") line
        || (starts_word (lit "-include") line || starts_word (lit "-sinclude") line))

unfoldable pub is_verify_rule : Text → Bool
unfolding drop_while
is_verify_rule line =
    let suffix = drop_while (λ c. c == 32) (drop (length (lit "verify")) line) in
    starts_with (lit "verify") line
    && (starts_with (b':' ∷ []) suffix
        && not (starts_with (b'=' ∷ []) (drop_while (λ c. c == b':') suffix)))

pub record Scan : Type 0 where
  pub continuation : Bool
  pub define_depth : ℕ
  pub complex : Bool
  pub found : Bool

abbrev pub no_scan : Scan
no_scan = record { continuation = false; define_depth = 0; complex = false; found = false }

-- a line inside a definition
unfoldable pub define_line : Scan → ℕ → Text → Scan
unfolding is_define starts_word drop_while
define_line s depth raw =
    let trimmed = drop_while is_blank raw in
    record s {
      complex = true;
      define_depth =
          if is_define 2 trimmed
          then suc (suc depth)
          else if starts_word (lit "endef") trimmed
          then depth
          else suc depth;
    }

-- a line that is neither a recipe nor continued
unfoldable pub rule_line : Scan → Text → Scan
unfolding is_define is_include is_verify_rule
rule_line s line =
    if length line == 0 || starts_with (b'#' ∷ []) line
    then s
    else if is_define 2 line
    then record s { define_depth = 1; complex = true }
    else record s {
      complex =
          s.complex || (is_include line || (includes (lit "$(") line || includes (lit "${") line));
      found = s.found || is_verify_rule line;
    }

unfoldable pub plain_line : Scan → Text → Scan
unfolding rule_line drop_while
plain_line s raw =
    let next = ends_with (b'\\' ∷ []) raw in
    let noted = record s { complex = s.complex || next; continuation = next } in
    if s.continuation || starts_with (9 ∷ []) raw
    then noted
    else rule_line noted (drop_while (λ c. c == 32) raw)

unfoldable pub makefile_line : Scan → ℕ → Text → Scan
unfolding plain_line define_line
makefile_line s zero raw = plain_line s raw
makefile_line s (suc depth) raw = define_line s depth raw

unfoldable pub makefile_lines : Scan → List Text → Scan
unfolding makefile_line
makefile_lines s [] = s
makefile_lines s (raw ∷ lines) = makefile_lines (makefile_line s s.define_depth raw) lines

unfoldable pub scan_makefile : Text → Scan
unfolding makefile_lines
scan_makefile text = makefile_lines no_scan (split 10 text)

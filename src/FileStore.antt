-- ===== src/FileStore.antt =====
-- server/go/internal/filestore/filestore.go: where the files of recordings and pipelines stand. Of
-- Go's `path/filepath` it uses `Join` and `Clean`, which are those of Unix here. The roots are absolute
-- and cleaned already, as `filepath.Abs` returns them; a name of a file is its bytes.
pub mod Clean
pub mod Paths
pub mod Files
use project_dia.Prelude.{
  ℕ, Bool, true, false, not, Option, none, some, List, [], ◌∷◌, ◌++◌, ◌&&◌, ◌||◌, ◌==◌, ltb, leb,
  length, any, if◌then◌else◌,
}
use project_dia.Prelude.Text.{Text, codes, text_eq, after_prefix, is_digit, dash, split_at}

abbrev pub slash : ℕ
slash = 47

abbrev pub dot : ℕ
dot = 46

abbrev pub underscore : ℕ
underscore = 95

-- `strings.Join` by a slash
abbrev pub join_with_slash : List Text → Text
join_with_slash [] = []
join_with_slash (part ∷ []) = part
join_with_slash (part ∷ next ∷ parts) = part ++ slash ∷ join_with_slash (next ∷ parts)

-- `strings.TrimSuffix`
abbrev pub trim_suffix : Text → Text → Text
trim_suffix suffix [] = []
trim_suffix suffix (c ∷ cs) = if text_eq (c ∷ cs) suffix then [] else c ∷ trim_suffix suffix cs

-- `filepath.Clean`: the elements so far, the last one first, and the next element.
unfoldable pub push : Bool → List Text → Text → List Text
push rooted [] e =
    if text_eq e [] || text_eq e (codes ".") || rooted && text_eq e (codes "..") then [] else e ∷ []
push rooted (top ∷ stack) e =
    if text_eq e [] || text_eq e (codes ".")
    then top ∷ stack
    else if text_eq e (codes "..") && not (text_eq top (codes ".."))
    then stack
    else e ∷ top ∷ stack

unfoldable pub push_all : Bool → List Text → List Text → List Text
unfolding push
push_all rooted stack [] = stack
push_all rooted stack (e ∷ es) = push_all rooted (push rooted stack e) es

unfoldable pub reverse_onto : List Text → List Text → List Text
reverse_onto parts [] = parts
reverse_onto parts (part ∷ stack) = reverse_onto (part ∷ parts) stack

abbrev pub relative : List Text → Text
relative [] = codes "."
relative (part ∷ parts) = join_with_slash (part ∷ parts)

unfoldable pub clean : Text → Text
unfolding push_all reverse_onto split_at
clean [] = codes "."
clean (c ∷ cs) =
    if c == slash
    then slash ∷ join_with_slash (reverse_onto [] (push_all true [] (split_at slash (c ∷ cs))))
    else relative (reverse_onto [] (push_all false [] (split_at slash (c ∷ cs))))

-- `filepath.Join`
unfoldable pub join : List Text → Text
unfolding clean
join [] = []
join ([] ∷ parts) = join parts
join ((c ∷ cs) ∷ parts) = clean (join_with_slash ((c ∷ cs) ∷ parts))

abbrev pub is_letter_or_digit : ℕ → Bool
is_letter_or_digit c = leb 65 c && leb c 90 || leb 97 c && leb c 122 || is_digit c

abbrev pub is_name_char : ℕ → Bool
is_name_char c = is_letter_or_digit c || c == dot || c == underscore || c == dash

abbrev pub most_name_chars : ℕ
most_name_chars = 127

-- The regular expression `safeSegment`.
unfoldable pub is_safe_segment : Text → Bool
is_safe_segment [] = false
is_safe_segment (c ∷ cs) =
    is_letter_or_digit c
    && not (any (λ d. not (is_name_char d)) cs)
    && leb (length cs) most_name_chars

-- The record `Store`.
pub record FileStore : Type 0 where
  pub recordings_root : Text
  pub pipelines_root : Text

abbrev pub is_unsafe : Text → Bool
is_unsafe segment = not (is_safe_segment (trim_suffix (codes ".json") segment))

abbrev pub is_missing : Option Text → Bool
is_missing none = true
is_missing (some rest) = false

abbrev pub escapes : Text → Text → Bool
escapes root path = not (text_eq path root) && is_missing (after_prefix (root ++ slash ∷ []) path)

-- `none` is `ErrUnsafePath`.
unfoldable pub join_safe : Text → List Text → Option Text
unfolding is_safe_segment join after_prefix text_eq
join_safe root segments =
    if any is_unsafe segments
    then none
    else if escapes root (join (root ∷ segments))
    then none
    else some (join (root ∷ segments))

unfoldable pub recording_path : FileStore → Text → Text → Option Text
unfolding join_safe
recording_path s station pass = join_safe s.recordings_root (station ∷ pass ∷ [])

unfoldable pub pipeline_path : FileStore → Text → Option Text
unfolding join_safe
pipeline_path s pipeline = join_safe s.pipelines_root ((pipeline ++ codes ".json") ∷ [])

abbrev pub is_blank : Text → Bool
is_blank element = text_eq element []

unfoldable pub recording_file_path : FileStore → Text → Text → Text → Option Text
unfolding join_safe split_at text_eq
recording_file_path s station pass relative_path =
    if is_blank relative_path
    then none
    else if any is_blank (split_at slash relative_path)
    then none
    else join_safe s.recordings_root (station ∷ pass ∷ split_at slash relative_path)

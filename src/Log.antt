-- ===== src/Log.antt =====
-- source/MicroBitLog.cpp: the columns of the data log and the text of its rows. A ManagedString, of
-- codal-core, is a list of characters, none of them 0. The storage of the text in
-- flash is in Log/Storage, what a program calls in Log/Session.
pub mod Clean
pub mod Rows
pub mod Storage
pub mod Session
pub mod Setup
mod Tests
use codal_microbit_v2_fft.Base.{
  ℕ, zero, suc, ◌+◌, Bool, true, false, ◌&&◌, ◌||◌, Option, none, some, List, [], ◌∷◌, ◌++◌, Bytes,
  update, of_list, slice, length, ltb, ◌==◌, if◌then◌else◌,
}

-- The characters that the code names; `invalid_char` is CONFIG_MICROBIT_LOG_INVALID_CHAR_VALUE.
abbrev pub tab : ℕ
tab = 9

abbrev pub newline : ℕ
newline = 10

abbrev pub comma : ℕ
comma = 44

abbrev pub dash : ℕ
dash = 45

abbrev pub greater : ℕ
greater = 62

abbrev pub invalid_char : ℕ
invalid_char = 95

-- The two tests of `cleanBuffer` at place `i`.
abbrev pub is_arrow : Bytes → ℕ → ℕ → Bool
is_arrow s len i = ltb (i + 2) len && (s i == dash && (s (i + 1) == dash && s (i + 2) == greater))

abbrev pub is_separator : Bytes → Bool → ℕ → Bool
is_separator s remove i = s i == tab || (remove && (s i == comma || s i == newline))

-- `out`, with `none` for an empty string, and what is there to write into.
abbrev pub text_of : Bytes → Option Bytes → Bytes
text_of s none = s
text_of s (some t) = t

abbrev pub mark : Bytes → Option Bytes → ℕ → Option Bytes
mark s out i = some (update (text_of s out) i invalid_char)

-- The loop of `cleanBuffer`, with `left` rounds to go.
unfoldable pub clean_loop : Bytes → ℕ → Bool → ℕ → ℕ → Option Bytes → Option Bytes
clean_loop s len remove zero i out = out
clean_loop s len remove (suc left) i out =
    let arrow = mark s (mark s (mark s out i) (i + 1)) (i + 2) in
    let out' = if is_arrow s len i then arrow else out in
    let out'' = if is_separator s remove i then mark s out' i else out' in
    clean_loop s len remove left (i + 1) out''

-- `cleanBuffer`
unfoldable pub clean_buffer : Bytes → ℕ → Bool → Option Bytes
clean_buffer s len remove = clean_loop s len remove len 0 none

-- `k = cleanBuffer(key); if (k.length()) key = k;`
unfoldable pub cleaned : List ℕ → List ℕ
cleaned s = slice (text_of (of_list s) (clean_buffer (of_list s) (length s) true)) 0 (length s)

-- `ColumnEntry`
pub record Column : Type 0 where
  pub key : List ℕ
  pub value : List ℕ

-- `rowData` and `headingsChanged`
pub record Row : Type 0 where
  pub columns : List Column
  pub headings_changed : Bool

unfoldable pub same_text : List ℕ → List ℕ → Bool
same_text [] [] = true
same_text [] (d ∷ ds) = false
same_text (c ∷ cs) [] = false
same_text (c ∷ cs) (d ∷ ds) = c == d && same_text cs ds

unfoldable pub has_key : List Column → List ℕ → Bool
has_key [] k = false
has_key (c ∷ cs) k = same_text c.key k || has_key cs k

-- `addHeading`
pub add_heading : Row → List ℕ → List ℕ → Bool → Row
add_heading r k v front =
    let c : Column = record { key = k; value = v } in
    if has_key r.columns k then r else record {
      columns = if front then c ∷ r.columns else r.columns ++ (c ∷ []);
      headings_changed = true;
    }

-- The loop of `logData`, which stops at the first column with the key.
unfoldable pub set_value : List Column → List ℕ → List ℕ → List Column
set_value [] k v = []
set_value (c ∷ cs) k v =
    let rest = set_value cs k v in
    if same_text c.key k then record c { value = v } ∷ cs else c ∷ rest

-- `logData`, in a row that is begun
pub log_data : Row → List ℕ → List ℕ → Row
log_data r k v =
    let key = cleaned k in
    let val = cleaned v in
    if has_key r.columns key
    then record r { columns = set_value r.columns key val }
    else add_heading r key val false

-- The loop of `beginRow`
pub clear_values : List Column → List Column
clear_values [] = []
clear_values (c ∷ cs) = record c { value = [] } ∷ clear_values cs

-- The loops of `endRow` that put a line together, of the keys or of the values: a comma between two,
-- and a newline at the end.
unfoldable pub line_text : List (List ℕ) → List ℕ
line_text [] = newline ∷ []
line_text (s ∷ []) = s ++ (newline ∷ [])
line_text (s ∷ t ∷ ss) = s ++ (comma ∷ line_text (t ∷ ss))

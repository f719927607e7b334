-- ===== src/Mcp/RawGuard.antt =====
-- crates/framewalk-mcp/src/raw_guard.rs: which raw commands are let through. With `str::trim` of
-- the standard library: it strips the white space of Unicode.
pub mod Lines
pub mod FirstWord
mod Examples
use framewalk.Prelude.{
  ℕ, zero, suc, ◌+◌, Bool, true, false, not, ◌||◌, Option, none, some, List, [], ◌∷◌, map, ◌==◌,
  if◌then◌else◌, Bytes, bytes, beq, starts_with,
}
use framewalk.Codec.Command.{MiCommand}
use framewalk.Codec.CString.{in_range}

pub data RawMiRejection : Type 0 where
  empty not_an_mi_command unknown_command_family : RawMiRejection

-- `Result<A, RawMiRejection>`
pub data Guarded (A : Type 0) : Type 0 where
  permitted : A → Guarded A
  rejected : RawMiRejection → Guarded A

pub data AllowlistMatch : Type 0 where
  prefix exact : AllowlistMatch

pub record AllowlistEntry : Type 0 where
  pub operation : Bytes
  pub match_kind : AllowlistMatch

matches : AllowlistEntry → Bytes → Bool
unfolding starts_with beq
matches entry operation = elim entry.match_kind [
  | prefix ↦ starts_with operation entry.operation
  | exact ↦ beq operation entry.operation
]

abbrev family : Bytes → AllowlistEntry
family operation = record { operation = operation; match_kind = prefix }

abbrev one : Bytes → AllowlistEntry
one operation = record { operation = operation; match_kind = exact }

abbrev pub allowed_commands : List AllowlistEntry
allowed_commands =
    family (bytes "ada-")
    ∷ family (bytes "add-")
    ∷ family (bytes "break-")
    ∷ family (bytes "catch-")
    ∷ one (bytes "complete")
    ∷ family (bytes "data-")
    ∷ family (bytes "dprintf-")
    ∷ family (bytes "enable-")
    ∷ family (bytes "environment-")
    ∷ family (bytes "exec-")
    ∷ family (bytes "file-")
    ∷ family (bytes "gdb-")
    ∷ family (bytes "inferior-")
    ∷ family (bytes "info-")
    ∷ family (bytes "list-")
    ∷ family (bytes "remove-")
    ∷ family (bytes "stack-")
    ∷ family (bytes "symbol-")
    ∷ one (bytes "target-attach")
    ∷ one (bytes "target-detach")
    ∷ one (bytes "target-disconnect")
    ∷ one (bytes "target-download")
    ∷ one (bytes "target-flash-erase")
    ∷ one (bytes "target-select")
    ∷ family (bytes "thread-")
    ∷ family (bytes "trace-")
    ∷ family (bytes "var-")
    ∷ []

abbrev byte_at : ℕ → Bytes → ℕ
byte_at i [] = 0
byte_at zero (b ∷ s) = b
byte_at (suc i) (b ∷ s) = byte_at i s

-- The third byte of a white space that begins with 0xe2 0x80.
general_punctuation : ℕ → Bool
general_punctuation b = in_range 0x80 0x8a b || b == 0xa8 || b == 0xa9 || b == 0xaf

-- How many bytes the white space at the front takes; 0 when there is none.
pub white_width : Bytes → ℕ
unfolding general_punctuation
white_width [] = 0
white_width (b ∷ s) =
    let second = byte_at 0 s in
    let third = byte_at 1 s in
    if in_range 9 13 b || b == 32
    then 1
    else if b == 0xc2
    then (if second == 0x85 || second == 0xa0 then 2 else 0)
    else if b == 0xe1
    then (if second == 0x9a then (if third == 0x80 then 3 else 0) else 0)
    else if b == 0xe2
    then (if second == 0x80
        then (if general_punctuation third then 3 else 0)
        else if second == 0x81
        then (if third == 0x9f then 3 else 0)
        else 0)
    else if b == 0xe3
    then (if second == 0x80 then (if third == 0x80 then 3 else 0) else 0)
    else 0

-- `trim_start`, behind the `k` bytes that the current white space still takes.
trim_start : ℕ → Bytes → Bytes
unfolding white_width
trim_start k [] = []
trim_start (suc k) (b ∷ s) = trim_start k s
trim_start zero (b ∷ s) = elim (white_width (b ∷ s)) [ zero ↦ b ∷ s | suc k ↦ trim_start k s ]

all_white : ℕ → Bytes → Bool
unfolding white_width
all_white k [] = true
all_white (suc k) (b ∷ s) = all_white k s
all_white zero (b ∷ s) = elim (white_width (b ∷ s)) [ zero ↦ false | suc k ↦ all_white k s ]

trim_end : Bytes → Bytes
unfolding all_white
trim_end [] = []
trim_end (b ∷ s) = let rest = trim_end s in if all_white 0 (b ∷ s) then [] else b ∷ rest

unfoldable pub trim : Bytes → Bytes
unfolding trim_start trim_end
trim s = trim_end (trim_start 0 s)

pub is_ascii_alphabetic : ℕ → Bool
is_ascii_alphabetic b = in_range b'A' b'Z' b || in_range b'a' b'z' b

pub is_ascii_whitespace : ℕ → Bool
is_ascii_whitespace b = b == 32 || b == 9 || b == 10 || b == 12 || b == 13

-- `split_once(white space)`, its first part.
first_word : Bytes → Bytes
unfolding is_ascii_whitespace
first_word [] = []
first_word (b ∷ s) = let rest = first_word s in if is_ascii_whitespace b then [] else b ∷ rest

abbrev second_is_letter : Bytes → Bool
second_is_letter [] = false
second_is_letter (b ∷ s) = is_ascii_alphabetic b

operation_of : Bytes → Guarded Bytes
unfolding first_word is_ascii_alphabetic
operation_of [] = rejected empty
operation_of (b ∷ s) =
    if b == b'-'
    then (if second_is_letter s then permitted (first_word s) else rejected not_an_mi_command)
    else rejected not_an_mi_command

unfoldable pub raw_mi_operation : Bytes → Guarded Bytes
unfolding trim operation_of
raw_mi_operation input = operation_of (trim input)

abbrev lowercase : ℕ → ℕ
lowercase b = if in_range b'A' b'Z' b then b + 32 else b

-- `to_ascii_lowercase`
unfoldable pub to_ascii_lowercase : Bytes → Bytes
to_ascii_lowercase [] = []
to_ascii_lowercase (b ∷ s) = lowercase b ∷ to_ascii_lowercase s

-- `ALLOWED_COMMANDS.iter().copied().any(..)`
any_matches : List AllowlistEntry → Bytes → Bool
unfolding matches
any_matches [] operation = false
any_matches (e ∷ es) operation = matches e operation || any_matches es operation

decide : Bool → Guarded Bytes → Guarded (Unit {0})
unfolding any_matches to_ascii_lowercase
decide allow_shell (rejected r) = rejected r
decide true (permitted operation) = permitted tt
decide false (permitted operation) =
    if any_matches allowed_commands (to_ascii_lowercase operation)
    then permitted tt
    else rejected unknown_command_family

unfoldable pub validate_raw_mi_command : Bytes → Bool → Guarded (Unit {0})
unfolding raw_mi_operation decide
validate_raw_mi_command input allow_shell = decide allow_shell (raw_mi_operation input)

-- What the guard without --allow-shell says of the bare operation.
abbrev pub guarded : MiCommand → Guarded (Unit {0})
guarded c = validate_raw_mi_command (b'-' ∷ c.operation) false

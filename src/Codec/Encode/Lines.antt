-- ===== src/Codec/Encode/Lines.antt =====
-- A command is one line.
use framewalk.Prelude.{
  ℕ, zero, suc, ◌/◌, ◌≡◌, refl, Bool, true, false, not, Option, none, some, List, [], ◌∷◌, ◌++◌,
  arith, ◌==◌, if◌then◌else◌, all, Bytes, bytes, Bool-cases, inl, inr,
}
use framewalk.Codec.Ast.{Token}
use framewalk.Codec.Command.{CommandOption, MiCommand}
use framewalk.Codec.Encode.{
  hex_nibble, escape_byte, escape, encode_cstring, needs_quotes, is_non_blank_sequence,
  encode_parameter, encode_option, option_value, encode_options, encode_parameters,
  should_emit_double_dash, digits_rev, backwards, write_u64, encode_token, encode_body,
  encode_command,
}

-- No byte of it ends the line.
abbrev pub IsLine : Bytes → Type 0
IsLine s = all (λ b. not (b == 10)) s ≡ true

-- Every option has a name of one line.
abbrev pub AreNamed : List CommandOption → Type 0
AreNamed opts = all (λ opt. all (λ b. not (b == 10)) opt.name) opts ≡ true

-- The operation and the option names of a command hold no newline.
abbrev pub IsNamed : MiCommand → Type 0
IsNamed c = IsLine c.operation × AreNamed c.options

pub IsLine-append : (s t : Bytes) → IsLine s → IsLine t → IsLine (s ++ t)
IsLine-append [] t hs ht = ht
IsLine-append (b ∷ s) t hs ht = ground (arith, IsLine-append s t)

escape_byte-IsLine : (b : ℕ) → IsLine (escape_byte b)
unfolding escape_byte hex_nibble
escape_byte-IsLine b = ground arith

escape-IsLine : (s : Bytes) → IsLine (escape s)
unfolding escape
escape-IsLine [] = refl
escape-IsLine (b ∷ s) =
    IsLine-append (escape_byte b) (escape s) (escape_byte-IsLine b) (escape-IsLine s)

cstring-IsLine : (s : Bytes) → IsLine (encode_cstring s)
unfolding encode_cstring
cstring-IsLine s = IsLine-append (escape s) _ (escape-IsLine s) refl

bare-IsLine : (s : Bytes) → all (λ c. not (needs_quotes c)) s ≡ true → IsLine s
unfolding needs_quotes
bare-IsLine [] h = refl
bare-IsLine (b ∷ s) h = ground (arith, bare-IsLine s)

non_blank-IsLine : (s : Bytes) → is_non_blank_sequence s ≡ true → IsLine s
unfolding is_non_blank_sequence
non_blank-IsLine [] h = refl
non_blank-IsLine (b ∷ s) h = bare-IsLine (b ∷ s) h

parameter-IsLine : (p : Bytes) → IsLine (encode_parameter p)
unfolding encode_parameter
parameter-IsLine p = elim (Bool-cases (is_non_blank_sequence p)) [
  | inl bare ↦ rw bare (non_blank-IsLine p bare)
  | inr quoted ↦ rw quoted (cstring-IsLine p)
]

value-IsLine : (v : Option Bytes) → IsLine (option_value v)
value-IsLine none = refl
value-IsLine (some v) = parameter-IsLine v

options-IsLine : (opts : List CommandOption) → AreNamed opts → IsLine (encode_options opts)
unfolding encode_options encode_option
options-IsLine [] h = refl
options-IsLine (opt ∷ opts) h =
    IsLine-append (encode_option opt) (encode_options opts)
      (IsLine-append opt.name (option_value opt.value) (ground arith) (value-IsLine opt.value))
      (options-IsLine opts (ground arith))

parameters-IsLine : (ps : List Bytes) → IsLine (encode_parameters ps)
unfolding encode_parameters
parameters-IsLine [] = refl
parameters-IsLine (p ∷ ps) =
    IsLine-append (encode_parameter p) _ (parameter-IsLine p) (parameters-IsLine ps)

digits-IsLine : (f n : ℕ) → IsLine (digits_rev f n)
unfolding digits_rev
digits-IsLine zero n = refl
digits-IsLine (suc f) n = ground (arith, digits-IsLine f (n / 10))

backwards-IsLine : (ds out : Bytes) → IsLine ds → IsLine out → IsLine (backwards ds out)
unfolding backwards
backwards-IsLine [] out hd ho = ho
backwards-IsLine (d ∷ ds) out hd ho = backwards-IsLine ds (d ∷ out) (ground arith) (ground arith)

IsLine-if : (b : Bool) (s t : Bytes) → IsLine s → IsLine t → IsLine (if b then s else t)
IsLine-if true s t hs ht = hs
IsLine-if false s t hs ht = ht

pub token-IsLine : (token : Option Token) → IsLine (encode_token token)
unfolding write_u64
token-IsLine none = refl
token-IsLine (some n) =
    IsLine-if (n == 0) _ _ refl (backwards-IsLine (digits_rev 20 n) [] (digits-IsLine 20 n) refl)

-- When the operation and the option names hold no newline, encode_command writes exactly one
-- line, whatever the parameters and the option values hold.
pub encode_command-IsLine :
    (token : Option Token) (cmd : MiCommand)
    → IsLine cmd.operation
    → AreNamed cmd.options
    → (body : Bytes) × (encode_command token cmd ≡ body ++ 10 ∷ []) × IsLine body
unfolding encode_command encode_body
encode_command-IsLine token cmd ho hn = (
  encode_body token cmd,
  refl,
  IsLine-append (encode_token token) _ (token-IsLine token) (
      IsLine-append cmd.operation _ ho (
        IsLine-append (encode_options cmd.options) _ (options-IsLine cmd.options hn) (
          IsLine-append (if should_emit_double_dash cmd then bytes " --" else []) _
            (IsLine-if (should_emit_double_dash cmd) _ _ refl refl)
            (parameters-IsLine cmd.parameters)))),
)

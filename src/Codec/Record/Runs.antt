-- ===== src/Codec/Record/Runs.antt =====
-- Lines that GDB writes, parsed.
use framewalk.Prelude.{◌≡◌, refl, some, [], ◌∷◌, bytes}
use framewalk.Codec.Ast.{
  const, tuple, list, empty, values, no_values, value, Results, no_results, result, Record, done,
  console,
}
use framewalk.Codec.Error.{ok, err, stream_record_has_token, mixed_list, token_overflow}
use framewalk.Codec.Value.{parse_value}
use framewalk.Codec.CString.{parse_cstring}
use framewalk.Codec.Cursor.{collect}
use framewalk.Codec.Record.{parse_record}

abbrev bkpt : Results
bkpt = result (bytes "number") (const (bytes "1")) (
    result (bytes "thread-groups") (list (values (value (const (bytes "i1")) no_values)))
      no_results)

done_with_tuple :
    parse_record (bytes "7^done,bkpt={number=\"1\",thread-groups=[\"i1\"]},x=[]")
    ≡ ok (
        Record.result (record {
          token = some 7;
          class = done;
          results = result (bytes "bkpt") (tuple bkpt) (result (bytes "x") (list empty) no_results);
        }))
unfolding parse_record parse_value parse_cstring collect
done_with_tuple = refl

octal_and_hex :
    parse_record (bytes "~\"\\303\\xa9\\n\"")
    ≡ ok (console (record { text = 0xc3 ∷ 0xa9 ∷ 10 ∷ [] }))
unfolding parse_record parse_cstring
octal_and_hex = refl

token_on_stream :
    parse_record (bytes "12~\"x\"") ≡ err (record { kind = stream_record_has_token; offset = 0 })
unfolding parse_record
token_on_stream = refl

mixed :
    parse_record (bytes "^done,x=[a=\"1\",\"2\"]") ≡ err (record { kind = mixed_list; offset = 15 })
unfolding parse_record parse_value parse_cstring collect
mixed = refl

token_too_wide :
    parse_record (bytes "18446744073709551616^done")
    ≡ err (record { kind = token_overflow; offset = 0 })
unfolding parse_record
token_too_wide = refl

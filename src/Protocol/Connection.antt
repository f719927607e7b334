-- ===== src/Protocol/Connection.antt =====
-- crates/framewalk-mi-protocol/src/connection.rs: the sans-IO state machine.
mod Examples
pub mod Answer
pub mod Correlation
pub mod Keyed
pub mod Exec
pub mod Session
pub mod Receive
pub mod Events
pub mod Classify
pub mod Outbound
pub use framewalk.Protocol.Dispatch.{Connection}
unfoldable pub use framewalk.Protocol.Dispatch.{
  push_back, upsert_bkpt, route_operation, route_done, or_empty, route_class, outcome_of, complete,
  classify_token, classify_result, frames_on_running, on_exec_running, target_on_stopped,
  is_exit_reason, frame_on_stopped, extract_frame, on_exec_stopped, classify_exec, route_notify,
  notification, classify_notify, classify_status, classify_record,
}
use framewalk.Prelude.{
  ℕ, suc, ◌+◌, ◌-◌, ◌/◌, not, ◌&&◌, Option, none, some, List, [], ◌∷◌, ◌++◌, leb, ltb, ◌==◌,
  if◌then◌else◌, length, drop, Bytes, bytes, nat_key, insert,
}
use framewalk.Wire.Framer
use framewalk.Wire.Framer.{Framer, line, group_terminator}
use framewalk.Wire.Framer.Chunks.{pop_all}
use framewalk.Codec.Ast.{Token, Record}
use framewalk.Codec.Error.{Result, ok, err, out_of_fuel}
use framewalk.Codec.Record.{parse_record}
use framewalk.Codec.Command.{MiCommand, command}
use framewalk.Codec.Encode.{encode_command, write_u64}
use framewalk.Protocol.State.Target.{TargetState}
use framewalk.Protocol.Token
use framewalk.Protocol.Token.{allocate}
use framewalk.Protocol.Pending
use framewalk.Protocol.Pending.{Operation, PendingInfo}
use framewalk.Protocol.Event.{
  CommandHandle, Event, ParseFailure, ProtocolError, MiVersion, invariant_violation,
}

abbrev pub with_version_hint : MiVersion → Connection
with_version_hint version = record {
  framer = Framer.new;
  outbound = [];
  outbound_consumed = 0;
  tokens = Token.default;
  pending = [];
  events = [];
  target = TargetState.unknown;
  threads = [];
  frames = [];
  breakpoints = [];
  varobjs = [];
  features = record { features = []; target_features = [] };
  mi_version = version;
}

abbrev pub new : Connection
new = with_version_hint MiVersion.unknown

-- `ParsedFrame`; `fuel_frame` has no counterpart in the source and never arises.
pub data ParsedFrame : Type 0 where
  record_frame : Record → ParsedFrame
  error_frame : ParseFailure → ParsedFrame
  terminator_frame fuel_frame : ParsedFrame

parsed_result : Bytes → Result Record → ParsedFrame
parsed_result l (ok r) = record_frame r
parsed_result l (err e) = error_frame (record { error = e; raw_line = l })
parsed_result l out_of_fuel = fuel_frame

pub parsed_frame : Framer.Frame → ParsedFrame
unfolding parsed_result parse_record
parsed_frame (line l) = parsed_result l (parse_record l)
parsed_frame group_terminator = terminator_frame

pub classify_frame : ParsedFrame → Connection → Connection
unfolding classify_record
classify_frame (record_frame r) c = classify_record r c
classify_frame (error_frame failure) c = push_back c (Event.parse_error failure)
classify_frame terminator_frame c = push_back c Event.group_closed
classify_frame fuel_frame c = c

-- The second phase of `receive_bytes`.
pub classify_all : List ParsedFrame → Connection → Connection
unfolding classify_frame
classify_all [] c = c
classify_all (p ∷ ps) c = classify_all ps (classify_frame p c)

pub parsed_all : List Framer.Frame → List ParsedFrame
unfolding parsed_frame
parsed_all [] = []
parsed_all (fr ∷ frs) = parsed_frame fr ∷ parsed_all frs

-- The two phases: every complete line is parsed, then each parse is classified.
unfoldable pub receive_bytes : Connection → Bytes → Connection
unfolding Framer.push Framer.pending_bytes pop_all classify_all parsed_all
receive_bytes c bs =
    let framer = Framer.push c.framer bs in
    let (frs, rest) = pop_all (suc (Framer.pending_bytes framer)) framer in
    classify_all (parsed_all frs) (record c { framer = rest })

unfoldable pub poll_event : Connection → Option Event × Connection
poll_event c = elim c.events [ [] ↦ (none, c) | ev ∷ rest ↦ (some ev, record c { events = rest }) ]

-- What both ways of submitting share: a fresh token, its pending entry, the bytes to write.
enqueue : Connection → PendingInfo → (Token → Bytes) → CommandHandle × Connection
unfolding allocate
enqueue c info encoded =
    let (token, tokens) = allocate c.tokens in
    (
      token,
      record c {
        tokens = tokens;
        pending = insert token info c.pending;
        outbound = c.outbound ++ encoded token;
      },
    )

unfoldable pub submit : Connection → MiCommand → CommandHandle × Connection
unfolding enqueue Pending.from_name encode_command
submit c cmd =
    enqueue c
      (record {
        operation = Pending.from_name cmd.operation cmd.parameters;
        operation_name = cmd.operation;
      })
      (λ token. encode_command (some token) cmd)

unfoldable pub submit_raw : Connection → Bytes → CommandHandle × Connection
unfolding enqueue write_u64
submit_raw c raw_line =
    enqueue c (record { operation = Operation.raw; operation_name = bytes "_raw" })
      (λ token. write_u64 token ++ (raw_line ++ 10 ∷ []))

-- The bytes that the transport has not acknowledged.
unfoldable pub outbound : Connection → Bytes
outbound c = drop c.outbound_consumed c.outbound

pub outbound_len : Connection → ℕ
outbound_len c = length c.outbound - c.outbound_consumed

-- The lazy compaction at the end of `consume_outbound`.
compact_outbound : Connection → Connection
compact_outbound c =
    if not (c.outbound_consumed == 0) && leb (length c.outbound / 2) c.outbound_consumed
    then record c { outbound = drop c.outbound_consumed c.outbound; outbound_consumed = 0 }
    else c

pub data Consumed : Type 0 where
  consumed : Connection → Consumed
  rejected : ProtocolError → Consumed

unfoldable pub consume_outbound : Connection → ℕ → Consumed
unfolding compact_outbound
consume_outbound c n =
    if ltb (length c.outbound) (c.outbound_consumed + n)
    then rejected invariant_violation
    else consumed (compact_outbound (record c { outbound_consumed = c.outbound_consumed + n }))

pub shutdown : Connection → Connection
unfolding submit
shutdown c = (submit c (command (bytes "gdb-exit"))).1

-- ===== src/Transport/Subprocess.antt =====
-- crates/framewalk-mi-transport/src/subprocess: the configuration of GDB and the bootstrap of a session.
-- The replies to the bootstrap commands are an argument, by their number.
pub mod Bootstrap
mod Examples
use framewalk.Prelude.{
  ℕ, suc, Bool, true, false, Option, none, some, List, [], ◌∷◌, ◌++◌, if◌then◌else◌, Bytes, bytes,
}
use framewalk.Protocol.Event.{CommandOutcome, MiVersion}

pub record GdbConfig : Type 0 where
  pub program : Bytes
  pub mi_version : MiVersion
  pub extra_args : List Bytes
  pub env : List (Bytes × Bytes)
  pub cwd : Option Bytes
  pub non_stop : Bool

abbrev pub default_config : GdbConfig
default_config = record {
  program = bytes "gdb";
  mi_version = MiVersion.mi3;
  extra_args = [];
  env = [];
  cwd = none;
  non_stop = true;
}

abbrev pub with_arg : GdbConfig → Bytes → GdbConfig
with_arg c arg = record c { extra_args = c.extra_args ++ arg ∷ [] }

abbrev pub with_env : GdbConfig → Bytes → Bytes → GdbConfig
with_env c key value = record c { env = c.env ++ (key, value) ∷ [] }

abbrev pub as_interpreter_arg : MiVersion → Bytes
as_interpreter_arg MiVersion.mi2 = bytes "mi2"
as_interpreter_arg _ = bytes "mi3"

-- The arguments that `spawn` gives to GDB.
abbrev pub gdb_arguments : GdbConfig → List Bytes
gdb_arguments c =
    (bytes "--interpreter=" ++ as_interpreter_arg c.mi_version)
    ∷ bytes "--quiet"
    ∷ bytes "--nx"
    ∷ c.extra_args

-- BOOTSTRAP_COMMANDS, with the one of non-stop mode at its second place.
abbrev pub bootstrap_commands : Bool → List Bytes
bootstrap_commands non_stop =
    if non_stop
    then bytes "-gdb-set mi-async on"
      ∷ bytes "-gdb-set non-stop on"
      ∷ bytes "-gdb-set pagination off"
      ∷ bytes "-gdb-set confirm off"
      ∷ []
    else bytes "-gdb-set mi-async on"
      ∷ bytes "-gdb-set pagination off"
      ∷ bytes "-gdb-set confirm off"
      ∷ []

-- What a submission under its timeout of two seconds comes to.
pub data BootReply (E : Type 0) : Type 0 where
  late : BootReply E
  answered : CommandOutcome → BootReply E
  failed : E → BootReply E

-- The `message` of the error.
pub data Complaint : Type 0 where
  timed_out : Complaint
  gdb_error : Bytes → Complaint
  unexpected : CommandOutcome → Complaint

pub data BootResult (E : Type 0) : Type 0 where
  ready : BootResult E
  bootstrap_error : Bytes → Complaint → BootResult E
  transport_error : E → BootResult E

module _ {E : Type 0} where
  -- One round of the loop, before the rest of it.
  unfoldable pub boot_round :
      Bytes → BootReply E → List Bytes × BootResult E → List Bytes × BootResult E
  boot_round raw late rest = (raw ∷ [], bootstrap_error raw timed_out)
  boot_round raw (answered (CommandOutcome.done rs)) rest = (raw ∷ rest.0, rest.1)
  boot_round raw (answered (CommandOutcome.connected rs)) rest = (raw ∷ rest.0, rest.1)
  boot_round raw (answered (CommandOutcome.error msg code)) rest =
      (raw ∷ [], bootstrap_error raw (gdb_error msg))
  boot_round raw (answered outcome) rest = (raw ∷ [], bootstrap_error raw (unexpected outcome))
  boot_round raw (failed err) rest = (raw ∷ [], transport_error err)

  -- The commands that are submitted, and the result.
  unfoldable pub boot_from : ℕ → List Bytes → (ℕ → BootReply E) → List Bytes × BootResult E
  unfolding boot_round
  boot_from n [] replies = ([], ready)
  boot_from n (raw ∷ commands) replies =
      boot_round raw (replies n) (boot_from (suc n) commands replies)

  unfoldable pub bootstrap_session : Bool → (ℕ → BootReply E) → List Bytes × BootResult E
  unfolding boot_from
  bootstrap_session non_stop replies = boot_from 0 (bootstrap_commands non_stop) replies

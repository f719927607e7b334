-- ===== src/Protocol/State/Threads.antt =====
-- crates/framewalk-mi-protocol/src/state/threads.rs: the thread registry.
use framewalk.Prelude.{
  Bool, Option, none, some, if◌then◌else◌, Bytes, bytes, beq, Map, bytes_key, get, insert, remove,
  map_values,
}
use framewalk.Codec.Ast.{Results}
use framewalk.Protocol.View.{get_str}

abbrev pub ThreadId : Type 0
ThreadId = Bytes

abbrev pub ThreadGroupId : Type 0
ThreadGroupId = Bytes

abbrev pub is_all : ThreadId → Bool
is_all id = beq id (bytes "all")

pub data ThreadState : Type 0 where
  running stopped : ThreadState

pub record ThreadInfo : Type 0 where
  pub id : ThreadId
  pub group_id : Option ThreadGroupId
  pub state : Option ThreadState
  pub name : Option Bytes

-- `ThreadInfo::new`
abbrev pub fresh : ThreadId → ThreadInfo
fresh id = record { id = id; group_id = none; state = none; name = none }

abbrev pub ThreadRegistry : Type 0
ThreadRegistry = Map ThreadId ThreadInfo

abbrev or_group : Option ThreadGroupId → Option ThreadGroupId → Option ThreadGroupId
or_group none group = group
or_group (some g) group = some g

-- `entry(id).and_modify(..).or_insert_with(..)`
abbrev pub created : ThreadId → Option ThreadGroupId → Option ThreadInfo → ThreadInfo
created id group none = record { id = id; group_id = group; state = none; name = none }
created id group (some info) = record info { group_id = or_group info.group_id group }

unfoldable pub on_thread_created : ThreadRegistry → Results → ThreadRegistry
unfolding get_str insert get
on_thread_created m rs = elim (get_str rs (bytes "id")) [
  | none ↦ m
  | some id ↦ insert id (created id (get_str rs (bytes "group-id")) (get id m)) m
]

unfoldable pub on_thread_exited : ThreadRegistry → Results → ThreadRegistry
unfolding get_str remove
on_thread_exited m rs = elim (get_str rs (bytes "id")) [ none ↦ m | some id ↦ remove id m ]

abbrev pub in_state : ThreadState → ThreadInfo → ThreadInfo
in_state st info = record info { state = some st }

-- `entry(id).or_insert_with(..)`
abbrev pub or_fresh : ThreadId → Option ThreadInfo → ThreadInfo
or_fresh id none = fresh id
or_fresh id (some info) = info

-- `on_running` and `on_stopped` differ in the state that they set.
unfoldable pub on_state : ThreadState → ThreadRegistry → Option ThreadId → ThreadRegistry
unfolding map_values insert get
on_state st m none = map_values (in_state st) m
on_state st m (some id) =
    if is_all id
    then map_values (in_state st) m
    else insert id (in_state st (or_fresh id (get id m))) m

abbrev pub on_running : ThreadRegistry → Option ThreadId → ThreadRegistry
on_running = on_state running

abbrev pub on_stopped : ThreadRegistry → Option ThreadId → ThreadRegistry
on_stopped = on_state stopped

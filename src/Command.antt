-- ===== src/Command.antt =====
-- command.hpp and command.cpp: the commands that the thread pool runs, in the master and in a
-- minion, and TPTask::Run of threadpool.cpp, which makes them.
pub mod Polling
pub mod LostAnswer
pub mod BothAnswers
pub mod Waiting
pub mod Unanswered
pub mod Interleaved
pub mod Race
pub mod Requests
pub mod Answers
pub mod Serving
use iot_drive.Shared.{
  ℕ, Bool, true, List, [], ◌∷◌, Option, none, some, Outcome, ok, throws, fault, bind, if◌then◌else◌,
}
use iot_drive.Buffer.{source_bytes}
use iot_drive.Factory.{Factory, add_ctor, create}
use iot_drive.ArgsKey.{
  ArgsKey, read_args, write_args, minion_read_args, minion_write_args, read_cmd_key, write_cmd_key,
  minion_read_cmd_key, minion_write_cmd_key, get_key,
}
use iot_drive.Message.Identity.{Uid}
use iot_drive.Raid.{Target, offset_to_proxy}
use iot_drive.Response.{register_command}
use iot_drive.Storage.{BinFile, seek, file_read, file_write, get_bin_file}
use iot_drive.Proxy.{Memory, Process}
use iot_drive.Proxy.MinionProxy.{read_request, write_request}
use iot_drive.Proxy.MasterProxy
use iot_drive.Proxy.MasterProxy.{read_response, write_response}
use iot_drive.Proxy.ResponseProxy.{Master}

pub data Command : Type 0 where
  read_command write_command minion_read_cmd minion_write_cmd : Command

-- What the framework of each program enters into its command factory (test/*.cpp).
abbrev pub master_factory : Factory Command
master_factory = add_ctor write_cmd_key write_command (add_ctor read_cmd_key read_command [])

abbrev pub minion_factory : Factory Command
minion_factory =
    add_ctor minion_write_cmd_key minion_write_cmd (add_ctor minion_read_cmd_key minion_read_cmd [])

pub data AiFunc : Type 0 where
  read_ai : Uid → AiFunc
  write_ai : Uid → Uid → AiFunc

-- What a command of the master leaves: datagrams to minions, in order, the function to poll with
-- its period in milliseconds, and the state.
pub record Issued : Type 0 where
  pub datagrams : List (ℕ × List ℕ)
  pub ai : AiFunc
  pub delay : ℕ
  pub master : Master

-- `dynamic_pointer_cast` to another class is null; EqualToCheck throws on it under debug.
abbrev null_args {ℓ} : {A : Type ℓ} → Bool → Outcome A
null_args debug = if debug then throws else fault

-- RegisterCommand on the master's state.
unfoldable pub register : Master → Outcome (Uid × Master)
register s =
    bind (register_command s.process.counter s.process.now s.process.pid s.watchlist)
      λ r. ok (r.0, record s { process = record (s.process) { counter = r.1 }; watchlist = r.2 })

unfoldable pub execute_read : Bool → Memory → ArgsKey → Master → Outcome Issued
execute_read debug mem (read_args key offset size) s = bind (offset_to_proxy offset) λ t.
    bind (register s) λ r. bind (read_request mem (t.0).offset size (r.0)) λ packet. ok (record {
      datagrams = ((t.0).minion, packet) ∷ [];
      ai = read_ai (r.0);
      delay = 5000;
      master = r.1;
    })
execute_read debug mem _ s = null_args debug

unfoldable pub execute_write : Bool → Memory → ArgsKey → Master → Outcome Issued
execute_write debug mem (write_args key offset size bytes) s = bind (offset_to_proxy offset) λ t.
    bind (register s) λ og. bind (register (og.1)) λ backup.
      bind (write_request mem (t.0).offset size bytes (og.0)) λ first.
        bind (write_request mem (t.1).offset size bytes (backup.0)) λ second. ok (record {
          datagrams = ((t.0).minion, first) ∷ ((t.1).minion, second) ∷ [];
          ai = write_ai (og.0) (backup.0);
          delay = 500;
          master = backup.1;
        })
execute_write debug mem _ s = null_args debug

-- The null pointer is not tested for in a minion.
unfoldable pub execute_minion_read : Memory → ArgsKey → BinFile → Outcome (List ℕ × BinFile)
execute_minion_read mem (minion_read_args key offset size uid) f =
    let (bytes, f') = file_read size (mem.fresh size) (seek offset (get_bin_file f)) in
    bind (read_response mem uid true (some bytes) size) λ packet. ok (packet, seek 0 f')
execute_minion_read mem _ f = fault

unfoldable pub execute_minion_write : Memory → ArgsKey → BinFile → Outcome (List ℕ × BinFile)
execute_minion_write mem (minion_write_args key offset size bytes uid) f =
    bind (source_bytes bytes size) λ bs.
      bind (write_response mem uid true)
        λ packet. ok (packet, seek 0 (file_write bs (seek offset (get_bin_file f))))
execute_minion_write mem _ f = fault

pub record Minion : Type 0 where
  pub process : Process
  pub file : BinFile

-- TPTask::Run in a minion. The commands of the master are not in its factory.
unfoldable pub run_minion_task : Memory → ArgsKey → BinFile → Outcome (List ℕ × BinFile)
run_minion_task mem args f = bind (create (get_key args) minion_factory) λ cmd. elim cmd [
  | minion_read_cmd ↦ execute_minion_read mem args f
  | minion_write_cmd ↦ execute_minion_write mem args f
  | _ ↦ fault
]

-- TPTask::Run in the master, up to the AI that polls.
unfoldable pub run_master_task : Bool → Memory → ArgsKey → Master → Outcome Issued
run_master_task debug mem args s = bind (create (get_key args) master_factory) λ cmd. elim cmd [
  | read_command ↦ execute_read debug mem args s
  | write_command ↦ execute_write debug mem args s
  | _ ↦ fault
]

-- A minion's way from a datagram to its answer: the input mediator gives the arguments of the proxy to
-- the pool, and a thread of the pool runs the command. No other command of the minion runs meanwhile.
unfoldable pub minion_serve : Bool → Memory → List ℕ → Minion → Outcome (List ℕ × Minion)
minion_serve debug mem packet m = bind (MasterProxy.get_args_key debug mem packet m.process) λ r.
    bind (run_minion_task mem (r.0) m.file)
      λ done. ok (done.0, record { process = r.1; file = done.1 })

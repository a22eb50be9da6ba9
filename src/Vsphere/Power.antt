-- ===== src/Vsphere/Power.antt =====
-- `shut_down`, `_wait_powered_off` and `_wait_task` of helper/helper_app/vsphere/power.py.
pub mod Laws
use vmware_migration_helper.Base.{
  Bool, true, false, ◌||◌, Option, none, some, List, [], ◌∷◌, ◌++◌, if◌then◌else◌, any,
}
use vmware_migration_helper.Jobs.Model.{
  Exception, job_cancelled, other_error, PowerOffResult, already_off, guest_shutdown, powered_off,
}
use vmware_migration_helper.Jobs.Actions.{Outcome, ok, raised}

-- `runtime.powerState`; `suspended` stands for every other value.
pub data PowerState : Type 0 where
  on off suspended : PowerState

-- One round of a wait: whether the job was cancelled, and the state that was read.
pub record Poll : Type 0 where
  pub cancelled : Bool
  pub state : PowerState

pub record Wait : Type 0 where
  pub polls : List Poll
  pub last : PowerState

-- `info.state` of a task at a poll
pub data TaskState : Type 0 where
  success error running : TaskState

pub record Vm : Type 0 where
  pub first : PowerState
  pub tools_running : Bool
  pub accepts : Bool  -- `ShutdownGuest` does not raise
  pub guest : Wait
  pub task : Option (List TaskState)  -- `PowerOffVM_Task` may give none
  pub hard : Wait

-- What vCenter is asked to do.
pub data Command : Type 0 where
  shutdown_guest power_off_vm : Command

abbrev pub is_off : PowerState → Bool
is_off off = true
is_off _ = false

-- `_wait_powered_off`
pub wait_off : List Poll → PowerState → Outcome Bool
wait_off [] last = ok (is_off last)
wait_off (p ∷ polls) last =
    let rest = wait_off polls last in
    if p.cancelled then raised job_cancelled else if is_off p.state then ok true else rest

-- `_wait_task`; the last poll before the deadline ends the wait.
pub wait_states : List TaskState → Outcome (Unit {0})
wait_states [] = raised other_error
wait_states (success ∷ states) = ok tt
wait_states (error ∷ states) = raised other_error
wait_states (running ∷ states) = wait_states states

pub wait_task : Option (List TaskState) → Outcome (Unit {0})
wait_task none = ok tt
wait_task (some states) = wait_states states

abbrev pub Shutdown : Type 0
Shutdown = Outcome PowerOffResult × List Command

pub after_hard : List Command → Outcome Bool → Shutdown
after_hard commands (ok true) = (ok powered_off, commands)
after_hard commands (ok false) = (raised other_error, commands)
after_hard commands (raised e) = (raised e, commands)

pub after_task : Wait → List Command → Outcome (Unit {0}) → Shutdown
after_task hard commands (ok u) = after_hard commands (wait_off hard.polls hard.last)
after_task hard commands (raised e) = (raised e, commands)

-- From `PowerOffVM_Task` on.
pub power_off : Vm → List Command → Shutdown
power_off vm before = after_task vm.hard (before ++ power_off_vm ∷ []) (wait_task vm.task)

pub after_guest : Vm → Outcome Bool → Shutdown
after_guest vm (ok true) = (ok guest_shutdown, shutdown_guest ∷ [])
after_guest vm (ok false) = power_off vm (shutdown_guest ∷ [])
after_guest vm (raised e) = (raised e, shutdown_guest ∷ [])

pub shut_down_on : Vm → Shutdown
shut_down_on vm =
    if vm.tools_running
    then if vm.accepts
      then after_guest vm (wait_off vm.guest.polls vm.guest.last)
      else power_off vm (shutdown_guest ∷ [])
    else power_off vm []

pub shut_down_from : PowerState → Vm → Shutdown
shut_down_from off vm = (ok already_off, [])
shut_down_from suspended vm = (raised other_error, [])
shut_down_from on vm = shut_down_on vm

unfoldable pub shut_down : Vm → Shutdown
unfolding shut_down_from shut_down_on after_guest power_off after_task after_hard wait_off wait_task
    wait_states
shut_down vm = shut_down_from vm.first vm

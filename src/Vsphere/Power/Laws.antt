-- ===== src/Vsphere/Power/Laws.antt =====
-- What a result of `shut_down` means: helper/helper_app/vsphere/power.py.
use vmware_migration_helper.Base.{
  ◌≡◌, refl, arith, Bool, true, false, ◌||◌, List, [], ◌∷◌, ◌++◌, if◌then◌else◌, any, inl, inr, ◌⊎◌,
}
use vmware_migration_helper.Jobs.Model.{job_cancelled, already_off, guest_shutdown, powered_off}
use vmware_migration_helper.Jobs.Actions.{Outcome, ok, raised}
use vmware_migration_helper.Vsphere.Power.{
  PowerState, on, off, suspended, Poll, Wait, Vm, Command, shutdown_guest, power_off_vm, is_off,
  wait_off, wait_task, after_hard, after_task, power_off, after_guest, shut_down_on, shut_down_from,
  shut_down, Shutdown,
}

-- The VM was off at one of the reads of a wait.
abbrev pub saw_off : Wait → Bool
saw_off w = any (λ p. is_off p.state) w.polls || is_off w.last

-- What each result says of the reads and of the commands that were sent.
abbrev pub Explained : Vm → Shutdown → Type 0
Explained vm (ok already_off, commands) = (is_off vm.first ≡ true) × (commands ≡ [])
Explained vm (ok guest_shutdown, commands) =
    (saw_off vm.guest ≡ true) × (vm.tools_running ≡ true) × (commands ≡ shutdown_guest ∷ [])
Explained vm (ok powered_off, commands) =
    (saw_off vm.hard ≡ true)
    × ((commands ≡ power_off_vm ∷ []) ⊎ (commands ≡ shutdown_guest ∷ power_off_vm ∷ []))
Explained vm (ok _, commands) = ⊥
Explained vm (raised e, commands) =
    (is_off vm.first ≡ false) × (vm.first ≡ suspended → commands ≡ [])

wait_off_lem :
    (polls : List Poll) (last : PowerState)
    → wait_off polls last ≡ ok true
    → (any (λ p. is_off p.state) polls || is_off last) ≡ true
unfolding wait_off
wait_off_lem [] last h = ground arith
wait_off_lem (p ∷ polls) last h = by_poll p.cancelled (is_off p.state) (wait_off_lem polls last) h
  where
    by_poll :
        (c b : Bool)
        → (wait_off polls last ≡ ok true → (any (λ q. is_off q.state) polls || is_off last) ≡ true)
        → (if c then raised job_cancelled else if b then ok true else wait_off polls last) ≡ ok true
        → (b || any (λ q. is_off q.state) polls || is_off last) ≡ true
    by_poll true b ih e = absurd (cc e)
    by_poll false true ih e = refl
    by_poll false false ih e = ih e

-- The commands of a power-off, with a shutdown of the guest before it or without.
abbrev IsHard : List Command → Type 0
IsHard commands = (commands ≡ power_off_vm ∷ []) ⊎ (commands ≡ shutdown_guest ∷ power_off_vm ∷ [])

module _ (vm : Vm) (was_on : vm.first ≡ on) where
  not_off : is_off vm.first ≡ false
  not_off = rw was_on refl

  no_suspend : {commands : List Command} → vm.first ≡ suspended → commands ≡ []
  no_suspend e = absurd (cc (was_on, e))

  after_hard-Explained :
      (commands : List Command) (o : Outcome Bool)
      → IsHard commands
      → (o ≡ ok true → saw_off vm.hard ≡ true)
      → Explained vm (after_hard commands o)
  unfolding after_hard
  after_hard-Explained commands (ok true) h saw = (saw refl, h)
  after_hard-Explained commands (ok false) h saw = (not_off, no_suspend)
  after_hard-Explained commands (raised e) h saw = (not_off, no_suspend)

  after_task-Explained :
      (commands : List Command) (o : Outcome (Unit {0}))
      → IsHard commands
      → Explained vm (after_task vm.hard commands o)
  unfolding after_task
  after_task-Explained commands (ok u) h =
      after_hard-Explained commands _ h (wait_off_lem vm.hard.polls vm.hard.last)
  after_task-Explained commands (raised e) h = (not_off, no_suspend)

  power_off-Explained :
      (before : List Command)
      → IsHard (before ++ power_off_vm ∷ [])
      → Explained vm (power_off vm before)
  unfolding power_off
  power_off-Explained before h = after_task-Explained _ (wait_task vm.task) h

  after_guest-Explained :
      (o : Outcome Bool)
      → vm.tools_running ≡ true
      → (o ≡ ok true → saw_off vm.guest ≡ true)
      → Explained vm (after_guest vm o)
  unfolding after_guest
  after_guest-Explained (ok true) tools saw = (saw refl, tools, refl)
  after_guest-Explained (ok false) tools saw = power_off-Explained (shutdown_guest ∷ []) (inr refl)
  after_guest-Explained (raised e) tools saw = (not_off, no_suspend)

  -- With VMware Tools the guest is asked first.
  abbrev shut_down_tools : Bool → Shutdown
  shut_down_tools accepts =
      if accepts
      then after_guest vm (wait_off vm.guest.polls vm.guest.last)
      else power_off vm (shutdown_guest ∷ [])

  by_guest : (accepts : Bool) → vm.tools_running ≡ true → Explained vm (shut_down_tools accepts)
  by_guest true tools = after_guest-Explained _ tools (wait_off_lem vm.guest.polls vm.guest.last)
  by_guest false tools = power_off-Explained (shutdown_guest ∷ []) (inr refl)

  by_tools :
      (tools : Bool)
      → vm.tools_running ≡ tools
      → Explained vm (if tools then shut_down_tools vm.accepts else power_off vm [])
  by_tools true e = by_guest vm.accepts e
  by_tools false e = power_off-Explained [] (inl refl)

  shut_down_on-Explained : Explained vm (shut_down_on vm)
  unfolding shut_down_on
  shut_down_on-Explained = by_tools vm.tools_running refl

-- A result of `shut_down` is true of what vCenter answered: `already_off` was off at first and got no command;
-- `guest_shutdown` went off, with VMware Tools running, after the guest alone was asked; `powered_off` went off
-- after the hard power-off, before which the guest was asked at most once. An exception is raised only if the
-- VM was not off at first, and a suspended VM gets no command.
pub shut_down-Explained : (vm : Vm) → Explained vm (shut_down vm)
unfolding shut_down
shut_down-Explained vm = by_first vm.first refl
  where
    by_first : (p : PowerState) → vm.first ≡ p → Explained vm (shut_down_from p vm)
    by_first off e = (rw e refl, refl)
    by_first suspended e = (rw e refl, λ s. refl)
    by_first on e = shut_down_on-Explained vm e

-- ===== src/Session.antt =====
-- The session's children: platform/common/session/child.c, with the start and the SIGCHLD dispatch of
-- platform/X11/session/src/session.c. What fork, waitpid and clock_gettime answer is part of each input. Times are
-- milliseconds, and a run is never shorter than 0.
pub mod Balance
pub mod Deadline
pub mod Policy
mod Tests
use isde.Common.{
  ℕ, suc, ◌+◌, ◌-◌, ◌*◌, ◌^◌, ◌==◌, ltb, leb, Bool, true, false, not, ◌&&◌, ◌||◌, List, [], ◌∷◌,
  Option, none, some, is_some, Str, codes, str_eq, map, if◌then◌else◌,
}

pub record Child : Type 0 where
  pub pid : ℕ
  pub command : Str
  pub respawn : Bool
  pub is_wm : Bool
  pub is_panel : Bool
  pub start_ms : ℕ
  pub rapid_crashes : ℕ

pub record PendingRespawn : Type 0 where
  pub command : Str
  pub is_wm : Bool
  pub is_panel : Bool
  pub rapid_crashes : ℕ
  pub deadline_ms : ℕ

-- What the code writes to stderr: the command that it gives up, or perror, which names none.
pub data Report : Type 0 where
  gave_up : Str → Report
  fork_error : Report

-- How a start ends: fork fails, the new process is not kept in the list since calloc fails, or it is.
pub data Fork : Type 0 where
  no_fork : Fork
  no_memory : (pid : ℕ) → Fork
  forked : (pid : ℕ) → Fork

-- The lists have their first node first; `dm_calls` are the calls of dm_dbus_call, the last first.
pub record Session : Type 0 where
  pub children : List Child
  pub pending_respawns : List PendingRespawn
  pub running : Bool
  pub confirm_pid : Option ℕ
  pub confirm_action : Str
  pub stderr : List Report
  pub dm_calls : List Str

-- RAPID_CRASH_WINDOW_MS, MAX_RAPID_CRASHES, BASE_RETRY_DELAY_MS and MAX_RETRY_DELAY_MS
abbrev pub rapid_crash_window : ℕ
rapid_crash_window = 5000

abbrev pub max_rapid_crashes : ℕ
max_rapid_crashes = 5

abbrev pub base_retry_delay : ℕ
base_retry_delay = 1000

abbrev pub max_retry_delay : ℕ
max_retry_delay = 60000

-- `child_spawn`, with the fields that its callers set in the new child.
unfoldable pub child_spawn :
    Fork
    → (now : ℕ) (command : Str) (respawn is_wm is_panel : Bool) (rapid_crashes : ℕ) → Session
    → Session
child_spawn no_fork now command respawn is_wm is_panel rapid_crashes s = record s {
  stderr = fork_error ∷ s.stderr;
}
child_spawn (no_memory pid) now command respawn is_wm is_panel rapid_crashes s = s
child_spawn (forked pid) now command respawn is_wm is_panel rapid_crashes s = record s {
  children =
      record {
        pid = pid;
        command = command;
        respawn = respawn;
        is_wm = is_wm;
        is_panel = is_panel;
        start_ms = now;
        rapid_crashes = rapid_crashes;
      }
      ∷ s.children;
}

unfoldable pub find_pid : ℕ → List Child → Option Child
find_pid pid [] = none
find_pid pid (c ∷ cs) = let rest = find_pid pid cs in if c.pid == pid then some c else rest

-- `child_remove`, of the child that `child_find_pid` found.
unfoldable pub remove_pid : ℕ → List Child → List Child
remove_pid pid [] = []
remove_pid pid (c ∷ cs) = let rest = remove_pid pid cs in if c.pid == pid then cs else c ∷ rest

abbrev pub child_remove : ℕ → Session → Session
child_remove pid s = record s { children = remove_pid pid s.children }

-- A child that waitpid reports: the clock when its uptime is taken, when a deadline is set or a new child starts, and
-- what fork answers for that.
pub record Reaped : Type 0 where
  pub pid : ℕ
  pub now : ℕ
  pub clock : ℕ
  pub fork : Fork

unfoldable pub crashes_of : (uptime crashes : ℕ) → ℕ
crashes_of uptime crashes = if ltb uptime rapid_crash_window then suc crashes else 0

-- BASE_RETRY_DELAY_MS << (crashes - 1), and MAX_RETRY_DELAY_MS at most
unfoldable pub retry_delay : (crashes : ℕ) → ℕ
retry_delay crashes =
    let delay = base_retry_delay * 2 ^ (crashes - 1) in
    if ltb max_retry_delay delay then max_retry_delay else delay

-- The three branches for a child that is started again.
unfoldable pub respawned : Reaped → Child → Session → Session
respawned r c s =
    let crashes = crashes_of (r.now - c.start_ms) c.rapid_crashes in
    let s' = child_remove r.pid s in
    if leb max_rapid_crashes crashes
    then record s' { stderr = gave_up c.command ∷ s.stderr }
    else if ltb 0 crashes
    then record s' {
      pending_respawns =
          record {
            command = c.command;
            is_wm = c.is_wm;
            is_panel = c.is_panel;
            rapid_crashes = crashes;
            deadline_ms = r.clock + retry_delay crashes;
          }
          ∷ s.pending_respawns;
    }
    else child_spawn r.fork r.clock c.command true c.is_wm c.is_panel 0 s'

abbrev pub reaped_child : Reaped → Session → Option Child → Session
reaped_child r s none = s
reaped_child r s (some c) = if c.respawn && s.running then respawned r c s else child_remove r.pid s

-- One round of `child_reap`.
unfoldable pub reap : Reaped → Session → Session
reap r s = reaped_child r s (find_pid r.pid s.children)

unfoldable pub child_reap : List Reaped → Session → Session
child_reap [] s = s
child_reap (r ∷ rs) s = child_reap rs (reap r s)

-- `child_process_pending_respawns`: a child is started for every respawn that is due. The first, the second start and
-- so on end like this, with the clock.
abbrev pub Forks : Type 0
Forks = ℕ → Fork × ℕ

abbrev pub unanswered : Forks → Forks
unanswered forks i = forks (suc i)

abbrev pub kept_waiting : PendingRespawn → Session → Session
kept_waiting pr s = record s { pending_respawns = pr ∷ s.pending_respawns }

abbrev pub spawn_pending : Fork × ℕ → PendingRespawn → Session → Session
spawn_pending a pr s = child_spawn a.0 a.1 pr.command true pr.is_wm pr.is_panel pr.rapid_crashes s

-- The loop over the list, from a session without pending respawns: what is not due is put back.
unfoldable pub process_pending : (now : ℕ) → Forks → List PendingRespawn → Session → Session
process_pending now forks [] s = s
process_pending now forks (pr ∷ prs) s =
    let kept = process_pending now forks prs s in
    let started = process_pending now (unanswered forks) prs (spawn_pending (forks 0) pr s) in
    if ltb now pr.deadline_ms then kept_waiting pr kept else started

unfoldable pub child_process_pending_respawns : (now : ℕ) → Forks → Session → Session
child_process_pending_respawns now forks s =
    process_pending now forks s.pending_respawns (record s { pending_respawns = [] })

-- `child_next_respawn_deadline`: -1 is none.
abbrev pub earlier : Option ℕ → ℕ → Option ℕ
earlier none d = some d
earlier (some e) d = if ltb d e then some d else some e

abbrev pub earliest : Option ℕ → List PendingRespawn → Option ℕ
earliest e [] = e
earliest e (pr ∷ prs) = earliest (earlier e pr.deadline_ms) prs

unfoldable pub child_next_respawn_deadline : Session → Option ℕ
child_next_respawn_deadline s = earliest none s.pending_respawns

-- The actions that are confirmed, and the method of the display manager that carries each out.
abbrev pub dm_method : Str → Option Str
dm_method action =
    if str_eq action (codes "shutdown")
    then some (codes "Shutdown")
    else if str_eq action (codes "reboot")
    then some (codes "Reboot")
    else if str_eq action (codes "suspend")
    then some (codes "Suspend")
    else none

abbrev pub is_action : Str → Bool
is_action action = is_some (dm_method action) || str_eq action (codes "logout")

-- `show_confirmation`: `fork` is none when it fails.
unfoldable pub show_confirmation : (fork : Option ℕ) → (action : Str) → Session → Session
show_confirmation fork action s =
    if is_some s.confirm_pid || not (is_action action)
    then s
    else record s { confirm_pid = fork; confirm_action = action }

abbrev pub called : Option Str → List Str → List Str
called none calls = calls
called (some method) calls = method ∷ calls

abbrev pub confirmed : (accepted : Bool) → Session → Session
confirmed accepted s = record s {
  confirm_pid = none;
  running = if accepted && str_eq s.confirm_action (codes "logout") then false else s.running;
  dm_calls = if accepted then called (dm_method s.confirm_action) s.dm_calls else s.dm_calls;
  confirm_action = [];
}

-- `confirm_reap`: `report` is none when waitpid does not report the process of the confirmation, and otherwise whether
-- it exited with 0.
unfoldable pub confirm_reap : (report : Option Bool) → Session → Session
confirm_reap report s =
    if is_some s.confirm_pid
    then (elim report [ none ↦ s | some accepted ↦ confirmed accepted s ])
    else s

unfoldable pub sigchld_dispatch : (report : Option Bool) → List Reaped → Session → Session
sigchld_dispatch report rs s = child_reap rs (confirm_reap report s)

-- What happens to a session, one input at a time.
pub data Input : Type 0 where
  spawned : Fork → (now : ℕ) (command : Str) (respawn is_wm is_panel : Bool) → Input
  sigchld : (report : Option Bool) → List Reaped → Input
  timer : (now : ℕ) → Forks → Input
  confirm : (fork : Option ℕ) (action : Str) → Input

unfoldable pub handle : Input → Session → Session
handle (spawned fork now command respawn is_wm is_panel) s =
    child_spawn fork now command respawn is_wm is_panel 0 s
handle (sigchld report rs) s = sigchld_dispatch report rs s
handle (timer now forks) s = child_process_pending_respawns now forks s
handle (confirm fork action) s = show_confirmation fork action s

unfoldable pub run_inputs : List Input → Session → Session
run_inputs [] s = s
run_inputs (i ∷ is) s = run_inputs is (handle i s)

-- ===== src/Tests/Builds.antt =====
-- A first call of the main graph's build.
use agentic_enterprise.Base.{refl, ok}
use agentic_enterprise.Builds.Workflow.{
  System, start, call, enter, finish, calls, enters, finishes, Reach, here, next,
}

abbrev first_done : System
first_done = finish 1 (ok tt) (enter 1 (call 1 start))

first_done_is_reached : Reach start first_done
unfolding call enter finish
first_done_is_reached =
    next (next (next here (calls 1 refl)) (enters 1 refl refl)) (finishes 1 (ok tt) refl)

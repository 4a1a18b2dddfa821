-- ===== src/Tests/ResearchBuilds.antt =====
-- Two overlapping first calls of the research graph's build.
use agentic_enterprise.Base.{◌≡◌, refl, value_error, ok}
use agentic_enterprise.Builds.ResearchApp.{
  raised, System, start, call, finish, calls, finishes, Reach, here, next, late_load_raises,
}

-- Both have started to load, and the first is done.
abbrev first_done : System
first_done = finish 1 (ok tt) (call 2 (call 1 start))

first_done_is_reached : Reach start first_done
unfolding call
first_done_is_reached =
    next (next (next here (calls 1 refl)) (calls 2 refl)) (finishes 1 (ok tt) refl)

late_load_raises_example : (finish 2 (ok tt) first_done).phase 2 ≡ raised value_error
unfolding call finish
late_load_raises_example = late_load_raises first_done 2 first_done_is_reached refl refl

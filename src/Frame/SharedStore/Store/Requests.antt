-- ===== src/Frame/SharedStore/Store/Requests.antt =====
-- The requests of solid/frame/sharedstore.hpp: a function is called at once with a pointer, or waits for one.
use solidframe.Prelude.{ℕ, Bool, true, false, not, ◌&&◌, ◌||◌, ◌==◌, if◌then◌else◌}
use solidframe.Frame.Common.{UniqueId}
use solidframe.Frame.SharedStore.{
  WaitKind, shared_wait, reinit_wait, unique_wait, Stub, Pointer, no_pointer, empty_pointer,
  do_try_get_shared, do_try_get_unique, do_try_get_reinit,
}
use solidframe.Frame.SharedStore.Store.{
  Store, Controller, in_range, is_id_current, at_stub, do_push_wait, clear_pointer,
  do_allocate_index, accessing, accessed,
}

module _ {O F : Type 0} where
  module _ {W : Type 0} (ctl : Controller O F W) where
    -- A call of a function, and the end of the pointer that it is called with.
    unfoldable pub call_function : F → Pointer → ℕ → Store O F → W → Store O F × W
    call_function f p err st w =
        let c = ctl.call f p err st w in ((clear_pointer c.ptr c.store).1, c.world)

    -- What `requestShared`, `requestUnique` and `requestReinit` with an id have in common. The result is whether the
    -- function was called.
    unfoldable pub request :
        (ℕ → Stub O F → Stub O F × Pointer)
        → WaitKind
        → F
        → UniqueId
        → Store O F
        → W
        → Store O F × W × Bool
    request try k f id st w =
        let r = at_stub id.index (try id.index) st in
        let failed = call_function f no_pointer 1 st w in
        let got = call_function f r.1 0 r.0 w in
        if in_range id st && is_id_current id st
        then if empty_pointer r.1
          then (do_push_wait id.index f k r.0, w, false)
          else (got.0, got.1, true)
        else (failed.0, failed.1, true)

    abbrev pub request_shared : F → UniqueId → Store O F → W → Store O F × W × Bool
    request_shared f id st w = request do_try_get_shared shared_wait f id st w

    abbrev pub request_unique : F → UniqueId → Store O F → W → Store O F × W × Bool
    request_unique f id st w = request do_try_get_unique unique_wait f id st w

    abbrev pub request_reinit_id : F → UniqueId → Store O F → W → Store O F × W × Bool
    request_reinit_id f id st w = request do_try_get_reinit reinit_wait f id st w

    -- `requestReinit` without an id, where there is no error yet, for the index.
    unfoldable pub reinit_at : ℕ → F → ℕ → Store O F → W → Store O F × W × Bool
    reinit_at idx f flags st w =
        let r = at_stub idx (do_try_get_reinit idx) st in
        let q = ctl.prepare_pointer f r.1 flags (accessing r.0 w) in
        let waiting = do_push_wait idx q.fnc reinit_wait (accessed q.access r.0) in
        let after = if q.done then accessed q.access r.0 else waiting in
        let c = call_function q.fnc q.ptr q.err after q.access.world in
        if empty_pointer r.1
        then (do_push_wait idx f reinit_wait r.0, w, false)
        else if not (empty_pointer q.ptr) || not (q.err == 0)
        then (c.0, c.1, true)
        else (after, q.access.world, false)

    unfoldable pub request_reinit : O → F → ℕ → Store O F → W → Store O F × W × Bool
    request_reinit o f flags st w =
        let p = ctl.prepare_index f flags (accessing st w) in
        let st1 = accessed p.access st in
        let fresh = do_allocate_index o st1 in
        let failed =
          call_function p.fnc (record no_pointer { psb = true }) p.err st1 p.access.world in
        if p.err == 0
        then if p.found
          then reinit_at p.idx p.fnc flags st1 p.access.world
          else reinit_at fresh.1 p.fnc flags fresh.0 p.access.world
        else (failed.0, failed.1, true)

-- ===== src/TaskQueue/Handles.antt =====
-- What becomes of the handle that `submit` returns.
use commlib_py.Prelude.{ℕ, ◌≡◌, ◌≢◌, refl, Bool, false, Option, none, some, arith}
use commlib_py.Prelude.Dict.{get, put, remove, get-put, get-remove, remove_absent}
use commlib_py.Topic.Text.{Text}
use commlib_py.TaskQueue.Types.{TaskEnvelope, TaskResult, Payload, Fields}
use commlib_py.TaskQueue.Producer.{
  TaskHandle, new_handle, wait_result, set_result, settle_handle, Producer, submit, handle_result,
}

module _ {Float Value : Type 0} where
  -- What `_handle_result` does to the handles and the table, whatever the callback.
  handles-handle_result :
      (has : Bool) (decode : Option (Fields Value → Option (Fields Value))) (r : TaskResult Value)
      (p : Producer Float Value)
      → ((handle_result has decode r p).1.handles
          ≡ settle_handle (get r.task_id p.pending_tasks) r p.handles)
        × ((handle_result has decode r p).1.pending_tasks ≡ remove r.task_id p.pending_tasks)
  unfolding handle_result
  handles-handle_result has decode r p = ground arith

  handle_result_completes :
      (has : Bool) (decode : Option (Fields Value → Option (Fields Value))) (r : TaskResult Value)
      (p : Producer Float Value) (ref : ℕ) (h : TaskHandle Value)
      → get r.task_id p.pending_tasks ≡ some ref
      → get ref p.handles ≡ some h
      → ((handle_result has decode r p).1.handles ≡ put ref (set_result r h) p.handles)
        × (get r.task_id (handle_result has decode r p).1.pending_tasks ≡ none)
  unfolding settle_handle
  handle_result_completes has decode r p ref h found object =
      ground (
        arith,
        handles-handle_result has decode r p,
        get-remove r.task_id r.task_id p.pending_tasks,
      )

  -- A task has one result: a second one for the same id reaches no handle, and the table of pending
  -- tasks stays as the first one left it.
  pub handle_result_twice :
      (has : Bool) (decode : Option (Fields Value → Option (Fields Value)))
      (r r' : TaskResult Value) (p : Producer Float Value)
      → r'.task_id ≡ r.task_id
      → ((handle_result has decode r' (handle_result has decode r p).1).1.handles
          ≡ (handle_result has decode r p).1.handles)
        × ((handle_result has decode r' (handle_result has decode r p).1).1.pending_tasks
            ≡ (handle_result has decode r p).1.pending_tasks)
  unfolding settle_handle
  handle_result_twice has decode r r' p same =
      let p' = (handle_result has decode r p).1 in
      ground (
        arith,
        handles-handle_result has decode r p,
        handles-handle_result has decode r' p',
        get-remove r.task_id r.task_id p.pending_tasks,
        remove_absent r.task_id (remove r.task_id p.pending_tasks),
      )

module _ {Float Value : Type 0} (null : Value) (is_zero : Float → Bool)
    (send_fails : TaskEnvelope Float Value → Option Text) where
  -- A submitted task's result, whoever publishes it, completes the handle that the caller holds, wakes
  -- the waiting caller, and takes the task out of the pending ones; no other handle changes.
  pub submit-handle_result :
      (uuid : ℕ) (msg : Payload Value) (priority : ℕ) (ttl : Option Float)
      (p : Producer Float Value) (has : Bool)
      (decode : Option (Fields Value → Option (Fields Value))) (r : TaskResult Value)
      → r.task_id ≡ uuid
      → let (escaped, ref, p') = submit null is_zero send_fails uuid msg priority ttl false p in
        let q = (handle_result has decode r p').1 in
        (get ref q.handles ≡ some (set_result r (new_handle uuid)))
        × (wait_result (set_result r (new_handle uuid)) ≡ some (some r))
        × (get uuid q.pending_tasks ≡ none)
        × ((j : ℕ) → j ≢ ref → get j q.handles ≡ get j p.handles)
  unfolding submit wait_result set_result
  submit-handle_result uuid msg priority ttl p has decode r same =
      let p' = (submit null is_zero send_fails uuid msg priority ttl false p).2 in
      let object = get-put p.fresh p.fresh (new_handle uuid) p.handles in
      let listed = get-put uuid r.task_id p.fresh p.pending_tasks in
      let (handles, gone) =
        handle_result_completes has decode r p' p.fresh (new_handle uuid) (ground arith)
          (ground arith) in
      (
        ground
            (arith, handles, get-put p.fresh p.fresh (set_result r (new_handle uuid)) p'.handles),
        refl,
        ground (arith, gone),
        λ j other. ground (
          arith,
          handles,
          get-put p.fresh j (set_result r (new_handle uuid)) p'.handles,
          get-put p.fresh j (new_handle uuid) p.handles,
        ),
      )

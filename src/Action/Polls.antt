-- ===== src/Action/Polls.antt =====
-- commlib/action.py: what a client learns of its goals.
use mathlib.Core.Path.{subst}
use commlib_py.Prelude.{
  ℕ, zero, suc, ◌+◌, ◌≡◌, ◌⊎◌, inl, inr, refl, Bool, true, false, ◌||◌, Option, none, some, arith,
  ◌<◌, ◌≤◌,
}
use commlib_py.Action.Goal.{
  Goal, returned, in_thread, running, is_final, returns, task_ends, done_callback, store_result,
  was_cancelled, is_done, set_status,
}
use commlib_py.Action.Service.{
  Service, blank, GoalResponse, ResultResponse, handle_send_goal, handle_get_result, report,
  send_to, accept_goal, notify, result_response, status_code,
}
use commlib_py.Action.Run.{task_finishes, step, task_step, finish_task}
use commlib_py.Action.Client.{Client, receive_goal, ref_of, answers, poll}

le_split : (k i : ℕ) → k ≤ i → (k ≡ i) ⊎ (k + 1 ≤ i)
le_split k i h = ground arith

module _ {Value : Type 0} (replies : ℕ → Option (ResultResponse Value)) (expired : ℕ → Bool) where
  -- The call with number j ends the loop.
  abbrev Ends : ℕ → Type 0
  Ends j = answers (replies j) || expired j ≡ true

  -- From the k-th call on, the loop returns the reply j, the first that ends it.
  abbrev Polled : ℕ → ℕ → ℕ → Type 0
  Polled fuel k j =
      (k ≤ j)
      × (j ≤ k + fuel)
      × (poll replies expired true (suc fuel) k ≡ some (replies j))
      × Ends j
      × ((i : ℕ) → k ≤ i → i < j → answers (replies i) || expired i ≡ false)

  poll_now : (fuel k : ℕ) → Ends k → Polled fuel k k
  unfolding poll
  poll_now fuel k e = (omega arith, omega arith, ground arith, e, λ i l h. absurd (omega arith))

  poll_later :
      (fuel k j : ℕ)
      → answers (replies k) || expired k ≡ false
      → Polled fuel (k + 1) j
      → Polled (suc fuel) k j
  unfolding poll
  poll_later fuel k j e (l, h, p, end, before) = (
    omega arith,
    omega arith,
    ground arith,
    end,
    λ i a b. elim (le_split k i a) [
      | inl same ↦ subst (λ x. answers (replies x) || expired x ≡ false) same e
      | inr more ↦ before i more b
    ],
  )

  poll_branch :
      (fuel k : ℕ) (b : Bool)
      → answers (replies k) || expired k ≡ b
      → (j : ℕ) × Polled fuel (k + 1) j
      → (j : ℕ) × Polled (suc fuel) k j
  poll_branch fuel k true e rest = (k, poll_now (suc fuel) k e)
  poll_branch fuel k false e (j, rest) = (j, poll_later fuel k j e rest)

  poll_from : (fuel k : ℕ) → Ends (k + fuel) → (j : ℕ) × Polled fuel k j
  poll_from zero k e = (k, poll_now zero k (ground arith))
  poll_from (suc fuel) k e =
      poll_branch fuel k (answers (replies k) || expired k) refl
        (poll_from fuel (k + 1) (ground arith))

  expired-Ends : (n : ℕ) → expired n ≡ true → Ends (0 + n)
  expired-Ends n e = ground arith

  Polled-first :
      (n j : ℕ)
      → Polled n 0 j
      → (j ≤ n)
        × (poll replies expired true (suc n) 0 ≡ some (replies j))
        × Ends j
        × ((i : ℕ) → i < j → answers (replies i) || expired i ≡ false)
  Polled-first n j (low, high, result, end, before) =
      (omega arith, result, end, λ i h. before i (omega arith) h)

  -- `get_result` with `wait`: where the deadline passes after some call n, the loop ends, within n + 1
  -- calls, and it returns the reply of the first call that names a final status or after which the
  -- deadline has passed.
  pub get_result_waits :
      (n : ℕ)
      → expired n ≡ true
      → (j : ℕ) × (j ≤ n)
        × (poll replies expired true (suc n) 0 ≡ some (replies j))
        × (answers (replies j) || expired j ≡ true)
        × ((i : ℕ) → i < j → answers (replies i) || expired i ≡ false)
  get_result_waits n e =
      let (j, polled) = poll_from n 0 (expired-Ends n e) in
      let (high, result, end, before) = Polled-first n j polled in (j, high, result, end, before)

module _ {Value : Type 0} (decode : Value → Option Value) (empty : Value) where
  -- A client whose goal is refused, because the goal of somebody else is running, forgets its own goal
  -- for the blank id, and when that other goal ends with a value and without a cancel, `get_result`
  -- gives this client that value as the result.
  pub send_goal_refused-get_result :
      (id : ℕ) (fields v : Value) (s : Service Value) (g : Goal Value) (c : Client Value)
      (answer : GoalResponse)
      → s.current_goal ≡ some g
      → g.status ≡ running
      → g.goal_task ≡ some in_thread
      → g.cancel_event ≡ false
      → (handle_send_goal decode empty id none fields s).0 ≡ returns answer
      → let s' = (handle_send_goal decode empty id none fields s).1 in
        let s'' = step decode empty (task_finishes (returned (some v))) s' in
        let c' = receive_goal answer c in
        (c'.goal_id ≡ blank)
        × (handle_get_result c'.goal_id s''
            ≡ returns (record { status = 4; result = report s.typed (some v) }))
  unfolding handle_send_goal send_to accept_goal notify receive_goal ref_of step task_step
      finish_task task_ends done_callback was_cancelled is_done store_result set_status
      handle_get_result result_response status_code is_final
  send_goal_refused-get_result id fields v s g c answer e r t k a = ground arith

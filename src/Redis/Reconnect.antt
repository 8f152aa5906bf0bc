-- ===== src/Redis/Reconnect.antt =====
-- commlib/transports/redis.py: the attempts of `start` and `_attempt_reconnect` to connect.
use commlib_py.Prelude.{
  ℕ, zero, suc, ◌+◌, ◌*◌, ◌≡◌, ◌≤◌, ◌<◌, refl, ◌∙◌, Bool, true, false, none, some, arith,
}
use commlib_py.Redis.Transport.{
  Transport, Started, up, gave_up, set_connected, is_connected, connect, max_retries_exceeded,
  after_connect, attempt_reconnect, reconnect_loop, start,
}

module _ (link : ℕ → Bool) where
  -- The transport that `start` leaves.
  abbrev pub left : Started link → Transport
  left (up t) = t
  left (gave_up t) = t

  attempt_reconnect_bounded :
      (t : Transport) (done : Bool) (t' : Transport)
      → 0 < t.reconnect_attempts
      → t.retry_count ≤ t.reconnect_attempts
      → attempt_reconnect link t ≡ some (done, t')
      → (t'.retry_count ≤ t.reconnect_attempts) × (t'.reconnect_attempts ≡ t.reconnect_attempts)
  unfolding attempt_reconnect max_retries_exceeded connect after_connect is_connected set_connected
  attempt_reconnect_bounded t done t' pos h e = ground arith

  is_connected_keeps :
      (t : Transport)
      → ((is_connected link t).1.retry_count ≡ t.retry_count)
        × ((is_connected link t).1.reconnect_attempts ≡ t.reconnect_attempts)
  unfolding is_connected
  is_connected_keeps t = ground arith

  connect_keeps :
      (t : Transport)
      → ((connect link t).1.retry_count ≤ t.retry_count)
        × ((connect link t).1.reconnect_attempts ≡ t.reconnect_attempts)
  unfolding connect set_connected
  connect_keeps t = ground arith

  reconnect_loop_bounded :
      (fuel : ℕ) (t : Transport) (r : Started link)
      → 0 < t.reconnect_attempts
      → t.retry_count ≤ t.reconnect_attempts
      → reconnect_loop link fuel t ≡ some r
      → (left r).retry_count ≤ t.reconnect_attempts
  unfolding reconnect_loop
  reconnect_loop_bounded zero t r pos h e = ground arith
  reconnect_loop_bounded (suc fuel) t r pos h e = grind (
    arith,
    is_connected_keeps t,
    attempt_reconnect_bounded (is_connected link t).1,
    λ (t' : Transport). reconnect_loop_bounded fuel t' r,
  )

  -- One round against a server that does not answer.
  round_fails :
      (fuel : ℕ) (t : Transport)
      → ((n : ℕ) → link n ≡ false)
      → t.has_redis ≡ true
      → t.retry_count < t.reconnect_attempts
      → reconnect_loop link (suc fuel) t
        ≡ reconnect_loop link fuel (record t {
          stopped = false;
          has_rsub = true;
          exchanges = (t.exchanges + 1) + 1;
          retry_count = t.retry_count + 1;
        })
  unfolding reconnect_loop attempt_reconnect max_retries_exceeded connect after_connect is_connected
  round_fails fuel t dead r h = ground (arith, dead t.exchanges, dead (t.exchanges + 1))

  gives_up :
      (k : ℕ) (t : Transport)
      → ((n : ℕ) → link n ≡ false)
      → t.has_redis ≡ true
      → 0 < t.reconnect_attempts
      → t.retry_count + k ≡ t.reconnect_attempts
      → (t' : Transport) × (reconnect_loop link (suc k) t ≡ some (gave_up t'))
        × (t'.retry_count ≡ t.reconnect_attempts)
        × (t'.exchanges ≡ t.exchanges + 2 * k + 1)
        × (t'.connected ≡ t.connected)
  unfolding reconnect_loop attempt_reconnect max_retries_exceeded is_connected
  gives_up zero t dead r pos e = (
    record t { exchanges = t.exchanges + 1 },
    ground (arith, dead t.exchanges),
    omega arith,
    omega arith,
    refl,
  )
  gives_up (suc k) t dead r pos e =
      let next = record t {
        stopped = false;
        has_rsub = true;
        exchanges = (t.exchanges + 1) + 1;
        retry_count = t.retry_count + 1;
      } in
      let (t', ends, count, asked, same) = gives_up k next dead r pos (omega arith) in
      (t', round_fails (suc k) t dead r (omega arith) ∙ ends, count, omega arith, same)

  -- A server that answers every second exchange when `connect` asks, and none when `is_connected` does:
  -- each attempt sets the counter back, so the attempts never run out.
  round_flaps :
      (fuel : ℕ) (t : Transport)
      → t.has_redis ≡ true
      → t.retry_count ≡ 0
      → 0 < t.reconnect_attempts
      → link t.exchanges ≡ false
      → link (t.exchanges + 1) ≡ true
      → link (t.exchanges + 1 + 1) ≡ false
      → (t' : Transport) × (reconnect_loop link (suc fuel) t ≡ reconnect_loop link fuel t')
        × (t'.has_redis ≡ true)
        × (t'.retry_count ≡ 0)
        × (t'.reconnect_attempts ≡ t.reconnect_attempts)
        × (t'.exchanges ≡ t.exchanges + 3)
  unfolding reconnect_loop attempt_reconnect max_retries_exceeded connect after_connect is_connected
      set_connected
  round_flaps fuel t h z pos a b c = (
    record t {
      stopped = false;
      has_rsub = true;
      retry_count = 0;
      connected = true;
      connected_event = true;
      disconnected_event = false;
      exchanges = t.exchanges + 1 + 1 + 1;
    },
    ground arith,
    h,
    refl,
    refl,
    omega arith,
  )

  flaps :
      (fuel base k : ℕ) (t : Transport)
      → ((i : ℕ)
          → (link (base + 3 * i) ≡ false)
            × (link (base + 3 * i + 1) ≡ true)
            × (link (base + 3 * i + 1 + 1) ≡ false))
      → t.has_redis ≡ true
      → t.retry_count ≡ 0
      → 0 < t.reconnect_attempts
      → t.exchanges ≡ base + 3 * k
      → reconnect_loop link fuel t ≡ none
  flaps zero base k t pattern h z pos e = unfold reconnect_loop in refl
  flaps (suc fuel) base k t pattern h z pos e =
      let (a, b, c) = pattern k in
      let (t', same, h', z', n', e') = round_flaps fuel t h z pos (rw e a) (rw e b) (rw e c) in
      same ∙ flaps fuel base (k + 1) t' pattern h' z' (omega arith) (omega arith)

  -- From a transport that has not connected and whose limit is not 0: against a server that never answers,
  -- `start` ends with the error of the last attempt after `reconnect_attempts` attempts, and each attempt
  -- costs two pings.
  pub start_gives_up :
      (t : Transport)
      → ((n : ℕ) → link n ≡ false)
      → t.has_redis ≡ false
      → t.retry_count ≡ 0
      → 0 < t.reconnect_attempts
      → (t' : Transport) × (start link (suc t.reconnect_attempts) t ≡ some (gave_up t'))
        × (t'.retry_count ≡ t.reconnect_attempts)
        × (t'.exchanges ≡ t.exchanges + 2 * t.reconnect_attempts + 2)
        × (t'.connected ≡ t.connected)
  unfolding start is_connected connect
  start_gives_up t dead h z pos =
      let t0 = record t {
        stopped = false;
        has_redis = true;
        has_rsub = true;
        exchanges = t.exchanges + 1;
      } in
      let (t', ends, count, asked, same) =
        gives_up t.reconnect_attempts t0 dead refl pos (omega arith) in
      (t', ground (arith, dead t.exchanges, ends), count, omega arith, same)

  -- Whatever the server answers and whenever: the retry count, which `connect` sets back to 0, never passes
  -- a limit that is not 0, in every run of `start` that ends, by a connection or by its error.
  pub start_bounded :
      (fuel : ℕ) (t : Transport) (r : Started link)
      → 0 < t.reconnect_attempts
      → t.retry_count ≤ t.reconnect_attempts
      → start link fuel t ≡ some r
      → (left r).retry_count ≤ t.reconnect_attempts
  unfolding start
  start_bounded fuel t r pos h e =
      let answer = is_connected link t in
      grind (
        arith,
        is_connected_keeps t,
        connect_keeps answer.1,
        reconnect_loop_bounded fuel answer.1 r,
        reconnect_loop_bounded fuel (connect link answer.1).1 r,
      )

  -- The limit does not make `start` end: against a server that answers the ping of each `connect` and no
  -- other one, it never ends, whatever `reconnect_attempts` is.
  pub start_flaps :
      (fuel : ℕ) (t : Transport)
      → t.has_redis ≡ false
      → 0 < t.reconnect_attempts
      → link t.exchanges ≡ true
      → ((i : ℕ)
          → (link (t.exchanges + 1 + 3 * i) ≡ false)
            × (link (t.exchanges + 1 + 3 * i + 1) ≡ true)
            × (link (t.exchanges + 1 + 3 * i + 1 + 1) ≡ false))
      → start link fuel t ≡ none
  unfolding start is_connected connect set_connected
  start_flaps fuel t h pos a pattern =
      let t0 = record t {
        stopped = false;
        has_redis = true;
        has_rsub = true;
        exchanges = t.exchanges + 1;
        retry_count = 0;
        connected = true;
        connected_event = true;
        disconnected_event = false;
      } in
      let run : reconnect_loop link fuel t0 ≡ none =
        flaps fuel (t.exchanges + 1) 0 t0 pattern refl refl pos (omega arith) in
      ground (arith, run)

-- ===== src/Pairing/Attempts.antt =====
-- web/pairing.js: the loop of attemptReconnect, from the loss of a connection to its end.
use quicksend.Base.{
  ℕ, zero, suc, ◌==◌, ◌+◌, ◌≤◌, ◌≡◌, refl, sym, ap, ◌∙◌, true, false, List, [], ◌∷◌, ◌++◌, none,
  some, arith, leb, length, get_elem?, length-append,
}
use quicksend.Base.Bytes.{Bytes, codes}
use quicksend.Pairing.State.{
  Session, Screen, Flow, Socket, Client, Event, paired, error, receive, receive_code, join_by_code,
  join, reconnect, closed, message, retry_timer,
}
use quicksend.Pairing.Screens.{◌▸◌}
use quicksend.Pairing.Session.{attempt_reconnect, on_paired_close, on_reconnect_close}
use quicksend.Pairing.Flows.{on_flow_close, on_pairing_close}
use quicksend.Pairing.Steps.{step, run, on_close, on_message, each_wired}
use quicksend.Pairing.Navigation.{set_state_lem}
use quicksend.Pairing.Reconnection.{accepted, accepted_lem, on_reconnected_lem}
use quicksend.Pairing.Sockets.{get_elem?-length}

-- `k` attempts that fail, from attempt `a` on socket `m` on: the socket closes, and the timer of the
-- next attempt fires.
abbrev pub failures : ℕ → ℕ → ℕ → List Event
failures zero m a = []
failures (suc k) m a = closed m ∷ retry_timer (a + 1) ∷ failures k (m + 1) (a + 1)

abbrev pub lost : Screen
lost = error (some (codes "connection_lost"))

==-self : (n : ℕ) → (n == n) ≡ true
==-self n = ground arith

module _ (c : Client) (s : Session) (token : Bytes) where
  abbrev with_token : Session
  with_token = record s { reconnect_token = some token }

  abbrev attempt_socket : ℕ → Socket
  attempt_socket a = record {
    flow = reconnect a s.session_id s.role token;
    wired = 0;
    closing = false;
  }

  -- The connection is lost and attempt `a` is under way, on the last socket.
  abbrev trying : List Socket → ℕ → Client
  trying ss a = record c {
    screen = paired with_token;
    active_socket = none;
    sockets = ss ++ (attempt_socket a ∷ []);
  }

  closed_lem :
      (ss : List Socket) (a : ℕ)
      → on_close (trying ss a) (length ss)
        ≡ (on_reconnect_close (trying ss a) (length ss) a ▸ (λ c. (c, [])))
  unfolding on_close on_flow_close each_wired
  closed_lem ss a = rw (get_elem?-length ss (attempt_socket a), on_close) refl

  fails :
      (ss : List Socket) (a : ℕ)
      → leb 15 a ≡ false
      → (on_close (trying ss a) (length ss)).0 ≡ trying ss a
  unfolding on_reconnect_close
  fails ss a h = ap (λ out. out.0) (closed_lem ss a) ∙ rw h refl

  gives_up :
      (ss : List Socket) (a : ℕ)
      → leb 15 a ≡ true
      → (on_close (trying ss a) (length ss)).0.screen ≡ lost
  unfolding on_reconnect_close
  gives_up ss a h =
      ap (λ out. out.0.screen) (closed_lem ss a) ∙ rw h (set_state_lem (trying ss a) lost).0

  abbrev more_sockets : List Socket → ℕ → ℕ → List Socket
  more_sockets ss zero a = ss
  more_sockets ss (suc k) a = more_sockets (ss ++ (attempt_socket a ∷ [])) k (a + 1)

  length-more_sockets : (ss : List Socket) (k a : ℕ) → length (more_sockets ss k a) ≡ length ss + k
  length-more_sockets ss zero a = omega arith
  length-more_sockets ss (suc k) a = omega (
    arith,
    length-more_sockets (ss ++ (attempt_socket a ∷ [])) k (a + 1),
    length-append ss (attempt_socket a ∷ []),
  )

  run-failures :
      (k a : ℕ) (ss : List Socket) (m : ℕ) (es : List Event)
      → m ≡ length ss
      → a + k ≤ 15
      → (run (trying ss a) (failures k m a ++ es)).0
        ≡ (run (trying (more_sockets ss k a) (a + k)) es).0
  unfolding run step attempt_reconnect
  run-failures zero a ss m es e h =
      let same : a ≡ a + 0 = omega arith in ap (λ b. (run (trying ss b) es).0) same
  run-failures (suc k) a ss m es e h =
      ap (λ n. (run (attempt_reconnect (on_close (trying ss a) n).0 (a + 1)).0 rest).0) e
      ∙ ap (λ x. (run (attempt_reconnect x (a + 1)).0 rest).0) (fails ss a (ground arith))
      ∙ run-failures k (a + 1) (ss ++ (attempt_socket a ∷ [])) (m + 1) es
          (omega (arith, length-append ss (attempt_socket a ∷ []))) (omega arith)
      ∙ ap (λ b. (run (trying (more_sockets ss (suc k) a) b) es).0) sum
    where
      rest : List Event
      rest = failures k (m + 1) (a + 1) ++ es

      sum : a + 1 + k ≡ a + suc k
      sum = omega arith

  abbrev dropping : ℕ → Client
  dropping n = record c { screen = paired with_token; active_socket = some n }

  on_flow_close-dropping :
      (n : ℕ) (flow : Flow) → on_flow_close n flow (dropping n) ≡ (dropping n, [])
  unfolding on_flow_close on_pairing_close on_reconnect_close
  on_flow_close-dropping n receive = refl
  on_flow_close-dropping n receive_code = refl
  on_flow_close-dropping n (join_by_code code) = refl
  on_flow_close-dropping n (join id key) = refl
  on_flow_close-dropping n (reconnect attempt id role t) = rw (==-self n) refl

  drops :
      (n : ℕ) (socket : Socket)
      → get_elem? c.sockets n ≡ some socket
      → socket.wired ≡ 1
      → (on_close (dropping n) n).0 ≡ trying c.sockets 1
  unfolding on_close on_flow_close on_paired_close attempt_reconnect each_wired
  drops n socket found once =
      ap (λ out. out.0) listens
      ∙ ap (λ out. (out ▸ each_wired socket.wired (on_paired_close n)).0)
          (on_flow_close-dropping n socket.flow)
      ∙ ap (λ k. (each_wired k (on_paired_close n) (dropping n)).0) once
      ∙ rw (==-self n) refl
    where
      listens :
          on_close (dropping n) n
          ≡ (on_flow_close n socket.flow (dropping n) ▸ each_wired socket.wired (on_paired_close n))
      listens = rw (found, on_close) refl

  comes_back :
      (ss : List Socket) (a : ℕ) (random : Bytes)
      → ((on_message (trying ss a) (length ss) accepted random).0.screen
          ≡ paired (record with_token { epoch = s.epoch + 1 }))
        × ((on_message (trying ss a) (length ss) accepted random).0.active_socket
            ≡ some (length ss))
  comes_back ss a random =
      let e =
        accepted_lem (trying ss a) (length ss) a s.session_id s.role token random
          (get_elem?-length ss (attempt_socket a)) in
      let now = on_reconnected_lem (trying ss a) (length ss) in
      (ap (λ c. c.screen) e ∙ now.0, ap (λ c. c.active_socket) e ∙ now.1)

  from_here :
      (k n : ℕ) (socket : Socket) (es : List Event)
      → get_elem? c.sockets n ≡ some socket
      → socket.wired ≡ 1
      → k ≤ 14
      → (run (dropping n) (closed n ∷ (failures k (length c.sockets) 1 ++ es))).0
        ≡ (run (trying (more_sockets c.sockets k 1) (1 + k)) es).0
  unfolding run step
  from_here k n socket es found once h =
      ap (λ x. (run x (failures k (length c.sockets) 1 ++ es)).0) (drops n socket found once)
      ∙ run-failures k 1 c.sockets (length c.sockets) es refl (omega arith)

-- For every paired client with a reconnect token whose active socket, wired once, closes, and for
-- every k up to 14: after k attempts that fail, each socket closing and the timer of the next
-- attempt firing, a reconnect that is accepted shows the same session in the next epoch, with the
-- new socket as the active one; and after 14 such attempts the failure of the fifteenth shows the
-- connection_lost error.
pub reconnects_or_ends :
    (c : Client) (s : Session) (token random : Bytes) (n k : ℕ) (socket : Socket)
    → c.screen ≡ paired s
    → s.reconnect_token ≡ some token
    → c.active_socket ≡ some n
    → get_elem? c.sockets n ≡ some socket
    → socket.wired ≡ 1
    → k ≤ 14
    → let m = length c.sockets in
      let back =
        (run c (closed n ∷ (failures k m 1 ++ (message (m + k) (some accepted) random ∷ [])))).0 in
      ((back.screen ≡ paired (record s { epoch = s.epoch + 1 }))
        × (back.active_socket ≡ some (m + k)))
      × ((run c (closed n ∷ (failures 14 m 1 ++ (closed (m + 14) ∷ [])))).0.screen ≡ lost)
unfolding run step
reconnects_or_ends c s token random n k socket shown has_token active found once h = (
  (
    ap (λ x. x.screen) returned
        ∙ (comes_back c s token (opened k) (1 + k) random).0
        ∙ ap (λ t. paired (record s { epoch = s.epoch + 1; reconnect_token = t })) (sym has_token),
    ap (λ x. x.active_socket) returned
        ∙ (comes_back c s token (opened k) (1 + k) random).1
        ∙ ap some (arrived k),
  ),
  ap (λ x. x.screen) ended ∙ gives_up c s token (opened 14) 15 refl,
)
  where
    same : c ≡ dropping c s token n
    same =
        ap (λ x. record c { screen = x })
          (shown ∙ ap (λ t. paired (record s { reconnect_token = t })) has_token)
        ∙ ap (λ a. record c { screen = paired (with_token c s token); active_socket = a }) active

    opened : ℕ → List Socket
    opened j = more_sockets c s token c.sockets j 1

    arrived : (j : ℕ) → length (opened j) ≡ length c.sockets + j
    arrived j = length-more_sockets c s token c.sockets j 1

    after :
        (j : ℕ) (es : List Event)
        → j ≤ 14
        → (run c (closed n ∷ (failures j (length c.sockets) 1 ++ es))).0
          ≡ (run (trying c s token (opened j) (1 + j)) es).0
    after j es le =
        ap (λ x. (run x (closed n ∷ (failures j (length c.sockets) 1 ++ es))).0) same
        ∙ from_here c s token j n socket es found once le

    returned :
        (run c (
          closed n
          ∷ (failures k (length c.sockets) 1
              ++ (message (length c.sockets + k) (some accepted) random ∷ [])))).0
        ≡ (on_message (trying c s token (opened k) (1 + k)) (length (opened k)) accepted random).0
    returned =
        after k (message (length c.sockets + k) (some accepted) random ∷ []) h
        ∙ ap (λ i. (on_message (trying c s token (opened k) (1 + k)) i accepted random).0)
            (sym (arrived k))

    ended :
        (run c (
          closed n ∷ (failures 14 (length c.sockets) 1 ++ (closed (length c.sockets + 14) ∷ [])))).0
        ≡ (on_close (trying c s token (opened 14) 15) (length (opened 14))).0
    ended =
        after 14 (closed (length c.sockets + 14) ∷ []) (omega arith)
        ∙ ap (λ i. (on_close (trying c s token (opened 14) 15) i).0) (sym (arrived 14))

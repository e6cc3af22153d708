-- ===== src/Models/Mongo/Sessions.antt =====
-- An operation runs on a session that has just answered.
use touchstone.Base.{
  ℕ, zero, suc, ◌≡◌, sym, ap, Str, ok, Error, Action, pure, handle_ok, handle_err, handle-eq-ok,
  inl, inr, ok_injective, >>=-eq-ok, >>=_ok, subst,
}
use touchstone.Models.Mongo.{
  Driver, redial, max_reconnect_time, try_session, new_session, run_and_close, exec,
}

module _ {S Sess : Type 0} (driver : Driver S Sess) (host : Str) where
  open driver use {clone, ping, dial, close, get_sess, set_sess}

  -- A session that answered a ping, after which the state is the given one.
  pub record Answered (sess : Sess) (after : S) : Type 0 where
    pub before : S
    pub pinged : ping sess before ≡ (ok tt, after)

  pub redial-Answered :
      (go_on : Action S Sess) (s : S) (sess : Sess)
      → ((t : S) → (go_on t).0 ≡ ok sess → Answered sess (go_on t).1)
      → (redial driver host go_on s).0 ≡ ok sess
      → Answered sess (redial driver host go_on s).1
  redial-Answered go_on s sess later h =
      let dialled : Sess → Action S Sess = λ new t. go_on (set_sess new t) in
      let refused : Error → Action S Sess = λ _. go_on in
      let v = dial host s in
      elim (handle-eq-ok dialled sess (dial host) refused s h) [
        | inl (new, e, h') ↦
            subst (λ w. Answered sess w.1)
              (sym (handle_ok (dial host) dialled s refused (ap (λ r. (r, v.1)) e)))
              (later (set_sess new v.1) h')
        | inr (e', e, h') ↦
            subst (λ w. Answered sess w.1)
              (sym (handle_err (dial host) dialled s refused (ap (λ r. (r, v.1)) e))) (later v.1 h')
      ]

  try_session-Answered :
      (n : ℕ) (s : S) (sess : Sess)
      → (try_session driver host n s).0 ≡ ok sess
      → Answered sess (try_session driver host n s).1
  unfolding try_session
  try_session-Answered zero s sess h = absurd (cc)
  try_session-Answered (suc n) s sess h =
      let c = clone (get_sess s) s in
      let v = ping c.0 c.1 in
      let alive : Unit {0} → Action S Sess = λ _. pure c.0 in
      let dead : Error → Action S Sess = λ _. redial driver host (try_session driver host n) in
      elim (handle-eq-ok alive sess (ping c.0) dead c.1 h) [
        | inl (_, e, h') ↦
            let same = ok_injective h' in
            subst (λ w. Answered sess w.1)
              (sym (handle_ok (ping c.0) alive c.1 dead (ap (λ r. (r, v.1)) e)))
              (subst (λ x. Answered x v.1) same
                (record { before = c.1; pinged = ap (λ r. (r, v.1)) e }))
        | inr (_, e, h') ↦
            subst (λ w. Answered sess w.1)
              (sym (handle_err (ping c.0) alive c.1 dead (ap (λ r. (r, v.1)) e)))
              (redial-Answered (try_session driver host n) v.1 sess
                (λ t. try_session-Answered n t sess) h')
      ]

  -- What a call of the database has done that is ok: its operation ran on a session that had just
  -- answered a ping, and the session was closed behind it.
  pub record RanOnce {A : Type 0} (operation : Sess → Action S A) (a : A) (after : S) : Type 0 where
    pub sess : Sess
    pub start : S
    pub answered : Answered sess start
    pub result : (operation sess start).0 ≡ ok a
    pub closed : after ≡ close sess (operation sess start).1

  -- A call of the database is ok only if its operation was, on a session that had just answered a
  -- ping, and the session is closed then.
  pub exec-RanOnce :
      {A : Type 0} (operation : Sess → Action S A) (s : S) (a : A)
      → (exec driver host operation s).0 ≡ ok a
      → RanOnce operation a (exec driver host operation s).1
  unfolding exec new_session run_and_close
  exec-RanOnce operation s a h =
      let go = run_and_close driver host operation in
      let m = try_session driver host max_reconnect_time in
      let (sess, e, h') = >>=-eq-ok go a m s h in
      record {
        sess = sess;
        start = (m s).1;
        answered = try_session-Answered max_reconnect_time s sess e;
        result = h';
        closed = ap (λ v. v.1) (>>=_ok m go s (ap (λ r. (r, (m s).1)) e));
      }

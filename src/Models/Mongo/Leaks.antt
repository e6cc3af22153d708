-- ===== src/Models/Mongo/Leaks.antt =====
-- How many sessions a call of the database leaves open.
use touchstone.Base.{
  ℕ, zero, suc, ◌≤◌, ◌<◌, ◌≡◌, sym, ap, ◌∙◌, arith, Str, ok, err, Error, Action, pure, handle_ok,
  handle_err, handle-eq-ok, inl, inr, >>=-eq-ok, >>=_ok, subst,
}
use touchstone.Models.Mongo.{
  Driver, redial, max_reconnect_time, try_session, new_session, run_and_close, exec,
}

-- The number of open sessions, as the driver documents its calls.
pub record Counts {S Sess : Type 0} (driver : Driver S Sess) (open_sessions : S → ℕ) : Type 0 where
  pub after_clone : (c : Sess) (s : S) → open_sessions (driver.clone c s).1 ≡ suc (open_sessions s)
  pub after_ping : (c : Sess) (s : S) → open_sessions (driver.ping c s).1 ≡ open_sessions s
  pub after_dial : (h : Str) (s : S) → open_sessions s ≤ open_sessions (driver.dial h s).1
  pub after_close : (c : Sess) (s : S) → open_sessions s ≤ suc (open_sessions (driver.close c s))
  pub after_set : (c : Sess) (s : S) → open_sessions (driver.set_sess c s) ≡ open_sessions s

module _ {S Sess : Type 0} (driver : Driver S Sess) (host : Str) (open_sessions : S → ℕ)
    (counts : Counts driver open_sessions) where
  open driver use {clone, ping, dial, close, get_sess, set_sess}

  redial-open :
      (go_on : Action S Sess) (s : S) (sess : Sess)
      → ((t : S) → (go_on t).0 ≡ ok sess → open_sessions t < open_sessions (go_on t).1)
      → (redial driver host go_on s).0 ≡ ok sess
      → open_sessions s < open_sessions (redial driver host go_on s).1
  redial-open go_on s sess later h =
      let dialled : Sess → Action S Sess = λ new t. go_on (set_sess new t) in
      let refused : Error → Action S Sess = λ _. go_on in
      let v = dial host s in
      let more = counts.after_dial host s in
      elim (handle-eq-ok dialled sess (dial host) refused s h) [
        | inl (new, e, h') ↦
            subst (λ w. open_sessions s < open_sessions w.1)
              (sym (handle_ok (dial host) dialled s refused (ap (λ r. (r, v.1)) e)))
              (omega (arith, later (set_sess new v.1) h', more, counts.after_set new v.1))
        | inr (e', e, h') ↦
            subst (λ w. open_sessions s < open_sessions w.1)
              (sym (handle_err (dial host) dialled s refused (ap (λ r. (r, v.1)) e)))
              (omega (arith, later v.1 h', more))
      ]

  try_session-open :
      (n : ℕ) (s : S) (sess : Sess)
      → (try_session driver host n s).0 ≡ ok sess
      → open_sessions s < open_sessions (try_session driver host n s).1
  unfolding try_session
  try_session-open zero s sess h = absurd (cc)
  try_session-open (suc n) s sess h =
      let c = clone (get_sess s) s in
      let v = ping c.0 c.1 in
      let alive : Unit {0} → Action S Sess = λ _. pure c.0 in
      let dead : Error → Action S Sess = λ _. redial driver host (try_session driver host n) in
      let cloned = counts.after_clone (get_sess s) s in
      let pinged = counts.after_ping c.0 c.1 in
      elim (handle-eq-ok alive sess (ping c.0) dead c.1 h) [
        | inl (_, e, h') ↦
            subst (λ w. open_sessions s < open_sessions w.1)
              (sym (handle_ok (ping c.0) alive c.1 dead (ap (λ r. (r, v.1)) e)))
              (omega (arith, cloned, pinged))
        | inr (_, e, h') ↦
            subst (λ w. open_sessions s < open_sessions w.1)
              (sym (handle_err (ping c.0) alive c.1 dead (ap (λ r. (r, v.1)) e)))
              (omega (
                arith,
                cloned,
                pinged,
                redial-open (try_session driver host n) v.1 sess (λ t. try_session-open n t sess)
                    h',
              ))
      ]

  -- Where the first ping fails, the session that it was tried on stays open beside the one given.
  try_session-leak :
      (n : ℕ) (s : S) (sess : Sess) {e : Error}
      → (ping (clone (get_sess s) s).0 (clone (get_sess s) s).1).0 ≡ err e
      → (try_session driver host (suc n) s).0 ≡ ok sess
      → suc (open_sessions s) < open_sessions (try_session driver host (suc n) s).1
  unfolding try_session
  try_session-leak n s sess failed h =
      let c = clone (get_sess s) s in
      let v = ping c.0 c.1 in
      let alive : Unit {0} → Action S Sess = λ _. pure c.0 in
      let dead : Error → Action S Sess = λ _. redial driver host (try_session driver host n) in
      let step = handle_err (ping c.0) alive c.1 dead (ap (λ r. (r, v.1)) failed) in
      let cloned = counts.after_clone (get_sess s) s in
      let pinged = counts.after_ping c.0 c.1 in
      subst (λ w. suc (open_sessions s) < open_sessions w.1) (sym step)
        (omega (
          arith,
          cloned,
          pinged,
          redial-open (try_session driver host n) v.1 sess (λ t. try_session-open n t sess)
              (ap (λ w. w.0) (sym step) ∙ h),
        ))

  -- A call of the database that is ok although its first ping failed leaves more sessions open than
  -- there were, if its operation opens and closes as many: the session whose ping failed is not
  -- closed.
  pub exec-leak :
      {A : Type 0} (operation : Sess → Action S A) (s : S) (a : A) {e : Error}
      → ((c : Sess) (t : S) → open_sessions (operation c t).1 ≡ open_sessions t)
      → (ping (clone (get_sess s) s).0 (clone (get_sess s) s).1).0 ≡ err e
      → (exec driver host operation s).0 ≡ ok a
      → open_sessions s < open_sessions (exec driver host operation s).1
  unfolding exec new_session run_and_close
  exec-leak operation s a even failed h =
      let go = run_and_close driver host operation in
      let m = try_session driver host max_reconnect_time in
      let (sess, e, h') = >>=-eq-ok go a m s h in
      let left = >>=_ok m go s (ap (λ r. (r, (m s).1)) e) in
      let opened = try_session-leak 4 s sess failed e in
      subst (λ w. open_sessions s < open_sessions w.1) (sym left)
        (omega
          (arith, opened, even sess (m s).1, counts.after_close sess (operation sess (m s).1).1))

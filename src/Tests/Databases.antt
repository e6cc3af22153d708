-- ===== src/Tests/Databases.antt =====
-- Sessions of the database.
use touchstone.Base.{
  ℕ, zero, suc, ◌-◌, ◌<◌, refl, arith, codes, Outcome, ok, err, new_error, Action,
}
use touchstone.Models.Mongo.{Driver, new_session, try_session, run_and_close, exec}
use touchstone.Models.Mongo.Sessions.{RanOnce, exec-RanOnce}
use touchstone.Models.Mongo.Leaks.{Counts, exec-leak}

-- A session is alive from number 1 on; each that is dialled has the next number. The state is the
-- wrapper's session and how many are open.
abbrev answer : ℕ → Outcome (Unit {0})
answer zero = err (new_error (codes "EOF"))
answer (suc c) = ok tt

abbrev driver : Driver (ℕ × ℕ) ℕ
driver = record {
  clone = λ c s. (c, (s.0, suc s.1));
  ping = λ c s. (answer c, s);
  dial = λ host s. (ok (suc s.0), (s.0, suc s.1));
  close = λ c s. (s.0, s.1 - 1);
  get_sess = λ s. s.0;
  set_sess = λ c s. (c, s.1);
}

counts : Counts driver (λ s. s.1)
counts = record {
  after_clone = λ c s. refl;
  after_ping = λ c s. refl;
  after_dial = λ h s. omega arith;
  after_close = λ c s. omega arith;
  after_set = λ c s. refl;
}

-- The number of the session.
abbrev operation : ℕ → Action (ℕ × ℕ) ℕ
operation c s = (ok c, s)

exec-RanOnce_example :
    RanOnce driver
      (codes "db:27017")
      operation
      1
      (exec driver (codes "db:27017") operation (0, 0)).1
unfolding exec new_session try_session run_and_close
exec-RanOnce_example = exec-RanOnce driver (codes "db:27017") operation (0, 0) 1 refl

exec-leak_example : 0 < (exec driver (codes "db:27017") operation (0, 0)).1.1
unfolding exec new_session try_session run_and_close
exec-leak_example =
    exec-leak driver (codes "db:27017") (λ s. s.1) counts operation (0, 0) 1 (λ c t. refl) refl refl

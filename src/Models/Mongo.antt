-- ===== src/Models/Mongo.antt =====
-- models/mongo_db.go: sessions, and the collections that the repositories work on.
pub mod Sessions
pub mod Leaks
use touchstone.Base.{
  ℕ, zero, suc, ℤ, Str, codes, Bool, List, [], ◌∷◌, ◌++◌, Outcome, ok, err, new_error, Action, pure,
  fail, handle, ◌>>=◌,
}
use touchstone.Models.Collection.{Collection}

abbrev pub max_reconnect_time : ℕ
max_reconnect_time = 5

-- What the wrapper uses of `mgo`, over a state `S` that holds the field `sess` of the wrapper too.
pub record Driver (S Sess : Type 0) : Type 0 where
  -- `sess.Clone()`
  pub clone : Sess → S → Sess × S
  -- `sess.Ping()`
  pub ping : Sess → Action S (Unit {0})
  -- `mgo.Dial(host)`
  pub dial : Str → Action S Sess
  -- `sess.Close()`
  pub close : Sess → S → S
  pub get_sess : S → Sess
  pub set_sess : Sess → S → S

module _ {S Sess : Type 0} (driver : Driver S Sess) (host : Str) where
  open driver use {clone, ping, dial, close, get_sess, set_sess}

  -- `NewDb`, without the mode and the limits of the session.
  unfoldable pub new_db : Action S (Unit {0})
  new_db = dial host >>= λ sess s. (ok tt, set_sess sess s)

  -- What follows a ping that fails: a session that is dialled becomes the wrapper's, and the loop
  -- goes on either way.
  abbrev pub redial : Action S Sess → Action S Sess
  redial go_on = handle (dial host) (λ new s. go_on (set_sess new s)) (λ _. go_on)

  -- The rounds of the loop of `NewSession` that are left.
  unfoldable pub try_session : ℕ → Action S Sess
  try_session zero s = fail (new_error (codes "reconnect " ++ (host ++ codes " 5 failed"))) s
  try_session (suc n) s =
      let (sess, s') = clone (get_sess s) s in
      handle (ping sess) (λ _. pure sess) (λ _. redial (try_session n)) s'

  unfoldable pub new_session : Action S Sess
  unfolding try_session
  new_session = try_session max_reconnect_time

  -- `return opreation(col)` with the deferred `sess.Close()`.
  unfoldable pub run_and_close : {A : Type 0} → (Sess → Action S A) → Sess → Action S A
  run_and_close operation sess s = let (r, s') = operation sess s in (r, close sess s')

  -- `Exec`, where an operation finds its collection by the session.
  unfoldable pub exec : {A : Type 0} → (Sess → Action S A) → Action S A
  unfolding new_session run_and_close
  exec operation = new_session >>= run_and_close operation

  -- The indices that are ensured one after the other.
  unfoldable pub ensure_all :
      {I : Type 0} → (I → Action S (Unit {0})) → List I → Action S (Unit {0})
  ensure_all ensure [] = pure tt
  ensure_all ensure (i ∷ is) = ensure i >>= λ _. ensure_all ensure is

  unfoldable pub create_index :
      {I : Type 0} → (Sess → I → Action S (Unit {0})) → List I → Action S (Unit {0})
  unfolding exec ensure_all
  create_index ensure_index indexs = exec (λ sess. ensure_all (ensure_index sess) indexs)

  module _ {D : Type 0} (col : Sess → Collection S D) where
    -- `DeleteAll` and `Foreach`; what `handle` changes is in the state.
    unfoldable pub exec_delete_all : (D → Bool) → Action S (Unit {0})
    unfolding exec
    exec_delete_all test = exec (λ sess. (col sess).delete_all test)

    unfoldable pub exec_foreach : (D → Bool) → (D → Action S (Unit {0})) → Action S (Unit {0})
    unfolding exec
    exec_foreach test f = exec (λ sess. (col sess).foreach test f)

    -- The operations of the wrapper on a collection, by those of the driver's on it.
    unfoldable pub collection : Collection S D
    unfolding exec exec_delete_all exec_foreach
    collection = record {
      insert = λ d. exec (λ sess. (col sess).insert d);
      get_one = λ test. exec (λ sess. (col sess).get_one test);
      get_all = λ test order. exec (λ sess. (col sess).get_all test order);
      get_many =
          λ test order offset limit. exec (λ sess. (col sess).get_many test order offset limit);
      count = λ test. exec (λ sess. (col sess).count test);
      update_one = λ test f. exec (λ sess. (col sess).update_one test f);
      update_all = λ test f. exec (λ sess. (col sess).update_all test f);
      delete_all = exec_delete_all;
      foreach = exec_foreach;
    }

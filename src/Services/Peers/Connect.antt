-- ===== src/Services/Peers/Connect.antt =====
-- What it means that `ConnectPeer` has no error.
use touchstone.Base.{
  suc, ◌+◌, ◌≤◌, ◌≡◌, refl, sym, ap, ◌∙◌, arith, Str, str_eq, str_eq_refl, str_eq_sound, Bool, true,
  false, Bool-cases, inl, inr, List, [], ◌∷◌, All, All-map, any, ◌||◌, is_some, Option-cases, ok,
  ok_injective, Action, handle-eq-ok, >>=-eq-ok, >>=_ok, length, ◌==◌, if◌then◌else◌, subst,
}
use touchstone.Interceptor.Handshake.{PeerConfig}
use touchstone.Services.Peers.{PeerMap, lookup, put, connect_all, set_and_compare, connect_peer}

-- A map has a key.
abbrev pub has_key : {N : Type 0} → PeerMap N → Str → Bool
has_key peers key = is_some (lookup key peers)

module _ {N : Type 0} where
  put-has_key : (key : Str) (n : N) (m : PeerMap N) → has_key (put key n m) key ≡ true
  unfolding lookup put
  put-has_key key n [] = rw (str_eq_refl key) refl
  put-has_key key n ((k, n') ∷ rest) = elim (Bool-cases (str_eq k key)) [
    | inl same ↦ rw same (rw (str_eq_refl key) refl)
    | inr other ↦ rw other (rw other (put-has_key key n rest))
  ]

  put-keeps :
      (key : Str) (n : N) (m : PeerMap N) (k : Str)
      → has_key m k ≡ true
      → has_key (put key n m) k ≡ true
  unfolding lookup put
  put-keeps key n [] k h = absurd (cc)
  put-keeps key n ((k', n') ∷ rest) k h = elim (Bool-cases (str_eq k' key)) [
    | inl same ↦
        let moved =
          subst (λ x. has_key {N = N} ((x, n') ∷ rest) k ≡ true) (str_eq_sound k' key same) h in
        elim (Bool-cases (str_eq key k)) [
          | inl here ↦ rw same (rw here refl)
          | inr there ↦ rw same (rw there (rw there at moved))
        ]
    | inr other ↦ elim (Bool-cases (str_eq k' k)) [
      | inl here ↦ rw other (rw here refl)
      | inr there ↦ rw other (rw there (put-keeps key n rest k (rw there at h)))
    ]
  ]

  -- A key that is there takes no more room.
  length-put :
      (key : Str) (n : N) (m : PeerMap N)
      → length (put key n m) ≡ (if has_key m key then length m else suc (length m))
  unfolding lookup put
  length-put key n [] = refl
  length-put key n ((k, n') ∷ rest) = elim (Bool-cases (str_eq k key)) [
    | inl same ↦ rw same refl
    | inr other ↦ elim (Bool-cases (has_key rest key)) [
      | inl there ↦ ground (arith, length-put key n rest)
      | inr gone ↦ ground (arith, length-put key n rest)
    ]
  ]

-- A key that comes twice.
abbrev pub repeats : List PeerConfig → Bool
repeats [] = false
repeats (c ∷ cs) = any (λ d. str_eq c.pubkey d.pubkey) cs || repeats cs

-- What the loop makes of the map, where the configurations `cs` are left.
record Grown {N : Type 0} (cs : List PeerConfig) (acc peers : PeerMap N) : Type 0 where
  kept : (k : Str) → has_key acc k ≡ true → has_key peers k ≡ true
  bound : length peers ≤ length acc + length cs
  all_there : length peers ≡ length acc + length cs → All (λ c. has_key peers c.pubkey ≡ true) cs
  none_before : length peers ≡ length acc + length cs → All (λ c. has_key acc c.pubkey ≡ false) cs
  once : length peers ≡ length acc + length cs → repeats cs ≡ false

module _ {N : Type 0} (acc peers : PeerMap N) (c : PeerConfig) (cs : List PeerConfig) where
  Grown-skip : Grown cs acc peers → Grown (c ∷ cs) acc peers
  Grown-skip g = record {
    kept = g.kept;
    bound = omega (arith, g.bound);
    all_there = λ full. absurd (omega (arith, g.bound, full));
    none_before = λ full. absurd (omega (arith, g.bound, full));
    once = λ full. absurd (omega (arith, g.bound, full));
  }

  -- A peer that is put leaves the map full only if its key is new.
  new_key :
      (n : N)
      → length peers ≤ length (put c.pubkey n acc) + length cs
      → length peers ≡ length acc + length (c ∷ cs)
      → (has_key acc c.pubkey ≡ false) × (length peers ≡ length (put c.pubkey n acc) + length cs)
  new_key n h full = elim (Bool-cases (has_key acc c.pubkey)) [
    | inl there ↦
        let size = length-put c.pubkey n acc in
        let same = rw there at size in absurd (omega (arith, same, h, full))
    | inr gone ↦
        let size = length-put c.pubkey n acc in
        let more = rw gone at size in (gone, omega (arith, more, full))
  ]

  not_before : (n : N) (k : Str) → has_key (put c.pubkey n acc) k ≡ false → has_key acc k ≡ false
  not_before n k h = elim (Bool-cases (has_key acc k)) [
    | inl there ↦ let wrong = put-keeps c.pubkey n acc k there in absurd (cc)
    | inr gone ↦ gone
  ]

  not_again :
      (n : N) (ds : List PeerConfig)
      → All (λ d. has_key (put c.pubkey n acc) d.pubkey ≡ false) ds
      → any (λ d. str_eq c.pubkey d.pubkey) ds ≡ false
  not_again n [] h = refl
  not_again n (d ∷ ds) h = elim (Bool-cases (str_eq c.pubkey d.pubkey)) [
    | inl same ↦
        let equal = str_eq_sound c.pubkey d.pubkey same in
        let there = put-has_key c.pubkey n acc in
        let gone = subst (λ k. has_key (put c.pubkey n acc) k ≡ false) (sym equal) h.0 in
        absurd (cc)
    | inr other ↦ rw other (not_again n ds h.1)
  ]

  Grown-put : (n : N) → Grown cs (put c.pubkey n acc) peers → Grown (c ∷ cs) acc peers
  Grown-put n g = record {
    kept = λ k h. g.kept k (put-keeps c.pubkey n acc k h);
    bound = ground (arith, g.bound, length-put c.pubkey n acc);
    all_there = λ full.
        (g.kept c.pubkey (put-has_key c.pubkey n acc), g.all_there (new_key n g.bound full).1);
    none_before = λ full.
        let (gone, full') = new_key n g.bound full in
        (gone, All-map (λ d. not_before n d.pubkey) cs (g.none_before full'));
    once = λ full.
        let (_, full') = new_key n g.bound full in
        rw (not_again n cs (g.none_before full')) (g.once full');
  }

module _ {S N : Type 0} (dial : Str → Action S N) (old : PeerMap N) (peers : PeerMap N) where
  connect_all-Grown :
      (cs : List PeerConfig) (acc : PeerMap N) (s : S)
      → (connect_all dial old cs acc s).0 ≡ ok peers
      → Grown cs acc peers
  unfolding connect_all
  connect_all-Grown [] acc s h =
      let same : acc ≡ peers = ok_injective h in
      record {
        kept = λ k e. subst (λ p. has_key p k ≡ true) same e;
        bound = omega (arith, ap length same);
        all_there = λ _. tt;
        none_before = λ _. tt;
        once = λ _. refl;
      }
  connect_all-Grown (c ∷ cs) acc s h = elim (Option-cases (lookup c.pubkey old)) [
    | inr (peer, e) ↦
        Grown-put acc peers c cs peer
          (connect_all-Grown cs (put c.pubkey peer acc) s (rw (e, connect_all) at h))
    | inl e ↦
        elim (handle-eq-ok (λ peer. connect_all dial old cs (put c.pubkey peer acc)) peers
          (dial c.host) (λ _. connect_all dial old cs acc) s (rw (e, connect_all) at h)) [
            | inl (peer, _, h') ↦
                Grown-put acc peers c cs peer (connect_all-Grown cs (put c.pubkey peer acc) _ h')
            | inr (_, _, h') ↦ Grown-skip acc peers c cs (connect_all-Grown cs acc _ h')
          ]
  ]

module _ {S N : Type 0} (dial : Str → Action S N) (get_peers : S → PeerMap N)
    (set_peers : PeerMap N → S → S) where
  connect_peer-full :
      (configs : List PeerConfig) (s : S)
      → (connect_peer dial get_peers set_peers configs s).0 ≡ ok tt
      → (peers : PeerMap N) × Grown configs [] peers
        × (length peers ≡ length configs)
        × ((connect_peer dial get_peers set_peers configs s).1
            ≡ set_peers peers (connect_all dial (get_peers s) configs [] s).1)
  unfolding connect_peer set_and_compare
  connect_peer-full configs s h =
      let m = connect_all dial (get_peers s) configs [] in
      let (peers, e, h') = >>=-eq-ok (set_and_compare set_peers configs) tt m s h in
      let full : length peers ≡ length configs =
        elim (Bool-cases (length peers == length configs)) [
          | inl same ↦ ground arith
          | inr other ↦ let wrong = rw other at h' in absurd (cc)
        ] in
      (
        peers,
        connect_all-Grown dial (get_peers s) peers configs [] s e,
        full,
        ap (λ v. v.1) (>>=_ok m (set_and_compare set_peers configs) s (ap (λ r. (r, (m s).1)) e)),
      )

  -- If `ConnectPeer` has no error, the server has a peer for the key of each configuration.
  pub connect_peer-All :
      (configs : List PeerConfig) (s : S)
      → ((peers : PeerMap N) (s' : S) → get_peers (set_peers peers s') ≡ peers)
      → (connect_peer dial get_peers set_peers configs s).0 ≡ ok tt
      → All
          (λ c.
            has_key (get_peers (connect_peer dial get_peers set_peers configs s).1) c.pubkey ≡ true)
          configs
  connect_peer-All configs s law h =
      let (peers, g, full, left) = connect_peer-full configs s h in
      let now = ap get_peers left ∙ law peers (connect_all dial (get_peers s) configs [] s).1 in
      subst (λ m. All (λ c. has_key {N = N} m c.pubkey ≡ true) configs) (sym now)
        (g.all_there (omega (arith, full)))

  pub connect_peer-once :
      (configs : List PeerConfig) (s : S)
      → (connect_peer dial get_peers set_peers configs s).0 ≡ ok tt
      → repeats configs ≡ false
  connect_peer-once configs s h =
      let (peers, g, full, left) = connect_peer-full configs s h in g.once (omega (arith, full))

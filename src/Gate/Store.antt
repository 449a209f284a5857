-- ===== src/Gate/Store.antt =====
-- A store that behaves as Gate/Redis.antt asks of Redis: an example of what the gate may work with.
pub mod Members
use mathlib.Core.Logic.{ite, if_pos, if_neg}
use native.Mathlib.Decide.{ℕ_discrete}
use terraformer.Base.{
  ℕ, zero, suc, ◌+◌, ◌≤◌, ◌≡◌, ◌≢◌, refl, ap, Bool, true, false, Option, none, some, List, [], ◌∷◌,
  arith, ltb, if◌then◌else◌, map,
}
use terraformer.Text.{Text}
use terraformer.Gate.{Key, Settings, Spelling}
use terraformer.Gate.Leases.{lease_count, is_held, stored, IsPool}
use terraformer.Gate.Refines.{Represents}
use terraformer.Gate.Redis.{Redis, RedisLaws, SameAt, Cutoff, above, kept, one_if}
use terraformer.Gate.Store.Members.{
  Scores, score_of, put_score, count_after, score_of-put, score_of-put_other, count_after-put,
  score_of-map, count_after-map,
}

-- A key lasts until `expires`, if that is set.
pub record Entry : Type 0 where
  pub text : Option Text
  pub scores : Scores
  pub expires : Option ℕ

abbrev pub is_gone : ℕ → Option ℕ → Bool
is_gone t none = false
is_gone t (some e) = if ltb t e then false else true

abbrev pub absent : Entry
absent = record { text = none; scores = []; expires = none }

abbrev pub as_of : ℕ → Entry → Entry
as_of t x = if is_gone t x.expires then absent else x

unfoldable pub Key-discrete : Discrete Key
Key-discrete = hlevel (ℕ_discrete)

abbrev pub Contents : Type 0
Contents = Key → Entry

unfoldable pub write : Key → Entry → Contents → Contents
write k x d j = ite (Key-discrete k j) x (d j)

abbrev pub store : Redis
store = record {
  Db = Contents;
  get = λ t k d. (as_of t (d k)).text;
  zcount = λ t k c d. count_after c (as_of t (d k)).scores;
  zscore = λ t k m d. score_of m (as_of t (d k)).scores;
  set = λ now k v ttl d.
      write k (record { text = some v; scores = []; expires = some (now + ttl) }) d;
  delete = λ k d. write k absent d;
  zadd = λ now k m s d.
      let x = as_of now (d k) in write k (record x { scores = put_score m (some s) x.scores }) d;
  zrem = λ k m d. let x = d k in write k (record x { scores = put_score m none x.scores }) d;
  zremrangebyscore =
      λ now k c d. let x = d k in write k (record x { scores = map (kept c) x.scores }) d;
  expire =
      λ now k ttl d. let x = as_of now (d k) in write k (record x { expires = some (now + ttl) }) d;
}

write_other : (j k : Key) (x : Entry) (d : Contents) → j ≢ k → write j x d k ≡ d k
unfolding write
write_other j k x d h = elim (Key-discrete j k) [ yes e ↦ absurd (h e) | no n ↦ if_neg _ n x (d k) ]

write-SameAt : (j k : Key) (x : Entry) (d : Contents) → j ≢ k → SameAt store k (write j x d) d
write-SameAt j k x d h = record {
  same_get = λ t. rw (write_other j k x d h) refl;
  same_count = λ t c. rw (write_other j k x d h) refl;
  same_score = λ t m. rw (write_other j k x d h) refl;
}

write_self : (k : Key) (x : Entry) (d : Contents) → write k x d k ≡ x
unfolding write
write_self k x d = elim (Key-discrete k k) [ yes e ↦ rw (if_pos _ e) refl | no n ↦ absurd (n refl) ]

-- How long an entry lasts is all that time decides.
gone-later :
    (t : ℕ) (x : Entry) (s : Scores)
    → (as_of t (record x { scores = s })).scores ≡ (if is_gone t x.expires then [] else s)
gone-later t x s = go (is_gone t x.expires)
  where
    go : (b : Bool) → (if b then absent else record x { scores = s }).scores ≡ (if b then [] else s)
    go true = refl
    go false = refl

unexpired : (now : ℕ) (x : Entry) → is_gone now (as_of now x).expires ≡ false
unexpired now x = go (is_gone now x.expires) refl
  where
    go :
        (b : Bool)
        → is_gone now x.expires ≡ b
        → is_gone now (if b then absent else x).expires ≡ false
    go true e = refl
    go false e = e

pub store-RedisLaws : RedisLaws store
unfolding score_of count_after
store-RedisLaws = record {
  set_elsewhere = λ now j k v ttl d h. write-SameAt j k _ d h;
  delete_elsewhere = λ j k d h. write-SameAt j k _ d h;
  zadd_elsewhere = λ now j k m s d h. write-SameAt j k _ d h;
  zrem_elsewhere = λ j k m d h. write-SameAt j k _ d h;
  prune_elsewhere = λ now j k c d h. write-SameAt j k _ d h;
  expire_elsewhere = λ now j k ttl d h. write-SameAt j k _ d h;
  get-set = λ now t k v ttl d h. rw (write_self k) (go (ltb t (now + ttl)) v (now + ttl));
  get-delete = λ t k d. rw (write_self k) refl;
  zscore-zadd =
      λ now k m s d. rw (write_self k, gone-later now, unexpired now) (score_of-put m (some s) _);
  zscore-zadd_other = λ now k m n s d h.
      rw (write_self k, gone-later now, unexpired now) (score_of-put_other m n (some s) _ h);
  zcount-zadd = λ now k m s c d.
      rw (write_self k, gone-later now, unexpired now) (count_after-put c m (some s) _);
  zscore-zrem =
      λ t k m d. rw (write_self k, gone-later t) (removed (is_gone t (d k).expires) m (d k).scores);
  zscore-zrem_other = λ t k m n d h. rw (write_self k, gone-later t) (kept_other t m n (d k) h);
  zcount-zrem = λ t k m c d. rw (write_self k, gone-later t) (counted t m c (d k));
  zscore-prune = λ now k m c d. rw (write_self k, gone-later now) (pruned now m c (d k));
  zcount-prune =
      λ now k c later d h. rw (write_self k, gone-later now) (prune_count now c later (d k) h);
  zscore-expire = λ now t k m ttl d h.
      rw (write_self k) (lasts (ltb t (now + ttl)) m (as_of now (d k)) (now + ttl));
  zcount-expire = λ now t k c ttl d h.
      rw (write_self k) (counts_last (ltb t (now + ttl)) c (as_of now (d k)) (now + ttl));
}
  where
    go :
        (b : Bool) (v : Text) (e : ℕ)
        → (if (if b then false else true)
            then absent
            else (record { text = some v; scores = []; expires = some e })).text
          ≡ (if b then some v else none)
    go true v e = refl
    go false v e = refl

    removed :
        (b : Bool) (m : ℕ) (xs : Scores) → score_of m (if b then [] else put_score m none xs) ≡ none
    removed true m xs = refl
    removed false m xs = score_of-put m none xs

    kept_other :
        (t m n : ℕ) (x : Entry)
        → m ≢ n
        → score_of n (if is_gone t x.expires then [] else put_score m none x.scores)
          ≡ score_of n (as_of t x).scores
    kept_other t m n x h = by_case (is_gone t x.expires)
      where
        by_case :
            (b : Bool)
            → score_of n (if b then [] else put_score m none x.scores)
              ≡ score_of n (if b then absent else x).scores
        by_case true = refl
        by_case false = score_of-put_other m n none x.scores h

    counted :
        (t m : ℕ) (c : Cutoff) (x : Entry)
        → count_after c (if is_gone t x.expires then [] else put_score m none x.scores)
            + one_if (above c (score_of m (as_of t x).scores))
          ≡ count_after c (as_of t x).scores
    counted t m c x = by_case (is_gone t x.expires)
      where
        by_case :
            (b : Bool)
            → count_after c (if b then [] else put_score m none x.scores)
                + one_if (above c (score_of m (if b then absent else x).scores))
              ≡ count_after c (if b then absent else x).scores
        by_case true = refl
        by_case false = omega (arith, count_after-put c m none x.scores)

    pruned :
        (t m : ℕ) (c : Cutoff) (x : Entry)
        → score_of m (if is_gone t x.expires then [] else map (kept c) x.scores)
          ≡ kept c (score_of m (as_of t x).scores)
    pruned t m c x = by_case (is_gone t x.expires)
      where
        by_case :
            (b : Bool)
            → score_of m (if b then [] else map (kept c) x.scores)
              ≡ kept c (score_of m (if b then absent else x).scores)
        by_case true = refl
        by_case false = score_of-map c m x.scores

    prune_count :
        (t : ℕ) (c later : Cutoff) (x : Entry)
        → c.instant + later.back ≤ later.instant + c.back
        → count_after later (if is_gone t x.expires then [] else map (kept c) x.scores)
          ≡ count_after later (as_of t x).scores
    prune_count t c later x h = by_case (is_gone t x.expires)
      where
        by_case :
            (b : Bool)
            → count_after later (if b then [] else map (kept c) x.scores)
              ≡ count_after later (if b then absent else x).scores
        by_case true = refl
        by_case false = count_after-map c later x.scores h

    lasts :
        (b : Bool) (m : ℕ) (x : Entry) (e : ℕ)
        → score_of m
            (if (if b then false else true) then absent else record x { expires = some e }).scores
          ≡ (if b then score_of m x.scores else none)
    lasts true m x e = refl
    lasts false m x e = refl

    counts_last :
        (b : Bool) (c : Cutoff) (x : Entry) (e : ℕ)
        → count_after c
            (if (if b then false else true) then absent else record x { expires = some e }).scores
          ≡ (if b then count_after c x.scores else 0)
    counts_last true c x e = refl
    counts_last false c x e = refl

abbrev pub empty_store : Contents
empty_store k = absent

-- Nothing stored is a pool with no lease.
pub empty-Represents :
    (settings : Settings) (spelling : Spelling) (now : ℕ)
    → Represents store settings spelling now empty_store []
unfolding score_of count_after lease_count is_held stored IsPool
empty-Represents settings spelling now = record {
  is_pool = tt;
  counts = λ s t k u v. refl;
  members = λ s t k m u v. refl;
  permits = λ s m u. refl;
}

-- ===== src/Gate/Redis.antt =====
-- What the gate asks of Redis, a parameter of the model: the commands that it sends, each at an
-- instant of the server's clock, and what their documentation says of the keys.
use terraformer.Base.{
  ℕ, ◌+◌, ◌≤◌, ◌≡◌, ◌≢◌, Bool, true, false, Option, none, some, ltb, if◌then◌else◌,
}
use terraformer.Text.{Text}
use terraformer.Gate.{Key}

-- The instant `back` before `instant`, which may lie before the clock's zero.
pub record Cutoff : Type 0 where
  pub instant : ℕ
  pub back : ℕ

-- The bounds `(c` and `+inf` of a range of scores.
abbrev pub is_after : Cutoff → ℕ → Bool
is_after cutoff score = ltb cutoff.instant (score + cutoff.back)

abbrev pub at : ℕ → Cutoff
at now = record { instant = now; back = 0 }

abbrev pub above : Cutoff → Option ℕ → Bool
above cutoff none = false
above cutoff (some score) = is_after cutoff score

abbrev pub kept : Cutoff → Option ℕ → Option ℕ
kept cutoff none = none
kept cutoff (some score) = if is_after cutoff score then some score else none

abbrev pub one_if : Bool → ℕ
one_if true = 1
one_if false = 0

-- The reads take the instant at which they are made, and so do the writes whose effect depends on
-- what has expired by then. `zscore` is not asked by the gate; it says what a set holds.
pub record Redis : Type 1 where
  pub Db : Type 0
  pub get : ℕ → Key → Db → Option Text
  pub zcount : ℕ → Key → Cutoff → Db → ℕ
  pub zscore : ℕ → Key → ℕ → Db → Option ℕ
  pub set : ℕ → Key → Text → ℕ → Db → Db
  pub delete : Key → Db → Db
  pub zadd : ℕ → Key → ℕ → ℕ → Db → Db
  pub zrem : Key → ℕ → Db → Db
  pub zremrangebyscore : ℕ → Key → Cutoff → Db → Db
  pub expire : ℕ → Key → ℕ → Db → Db

module _ (redis : Redis) where
  open redis use {Db, get, zcount, zscore, set, delete, zadd, zrem, zremrangebyscore, expire}

  -- A reader of this key cannot tell the two apart, at any instant.
  pub record SameAt (k : Key) (d e : Db) : Type 0 where
    pub same_get : (t : ℕ) → get t k d ≡ get t k e
    pub same_count : (t : ℕ) (c : Cutoff) → zcount t k c d ≡ zcount t k c e
    pub same_score : (t : ℕ) (m : ℕ) → zscore t k m d ≡ zscore t k m e

  -- Documented behaviour: a command changes its own key only; SET with EX stores a value for that
  -- long; ZADD gives a member its score; ZREM and ZREMRANGEBYSCORE remove members; EXPIRE lets a key
  -- live on for so long as it is.
  pub record RedisLaws : Type 0 where
    pub set_elsewhere :
        (now : ℕ) (j k : Key) (v : Text) (ttl : ℕ) (d : Db) → j ≢ k → SameAt k (set now j v ttl d) d
    pub delete_elsewhere : (j k : Key) (d : Db) → j ≢ k → SameAt k (delete j d) d
    pub zadd_elsewhere :
        (now : ℕ) (j k : Key) (m s : ℕ) (d : Db) → j ≢ k → SameAt k (zadd now j m s d) d
    pub zrem_elsewhere : (j k : Key) (m : ℕ) (d : Db) → j ≢ k → SameAt k (zrem j m d) d
    pub prune_elsewhere :
        (now : ℕ) (j k : Key) (c : Cutoff) (d : Db)
        → j ≢ k
        → SameAt k (zremrangebyscore now j c d) d
    pub expire_elsewhere :
        (now : ℕ) (j k : Key) (ttl : ℕ) (d : Db) → j ≢ k → SameAt k (expire now j ttl d) d
    pub get-set :
        (now t : ℕ) (k : Key) (v : Text) (ttl : ℕ) (d : Db)
        → now ≤ t
        → get t k (set now k v ttl d) ≡ (if ltb t (now + ttl) then some v else none)
    pub get-delete : (t : ℕ) (k : Key) (d : Db) → get t k (delete k d) ≡ none
    pub zscore-zadd :
        (now : ℕ) (k : Key) (m s : ℕ) (d : Db) → zscore now k m (zadd now k m s d) ≡ some s
    pub zscore-zadd_other :
        (now : ℕ) (k : Key) (m n s : ℕ) (d : Db)
        → m ≢ n
        → zscore now k n (zadd now k m s d) ≡ zscore now k n d
    pub zcount-zadd :
        (now : ℕ) (k : Key) (m s : ℕ) (c : Cutoff) (d : Db)
        → zcount now k c (zadd now k m s d) + one_if (above c (zscore now k m d))
          ≡ zcount now k c d + one_if (is_after c s)
    pub zscore-zrem : (t : ℕ) (k : Key) (m : ℕ) (d : Db) → zscore t k m (zrem k m d) ≡ none
    pub zscore-zrem_other :
        (t : ℕ) (k : Key) (m n : ℕ) (d : Db) → m ≢ n → zscore t k n (zrem k m d) ≡ zscore t k n d
    pub zcount-zrem :
        (t : ℕ) (k : Key) (m : ℕ) (c : Cutoff) (d : Db)
        → zcount t k c (zrem k m d) + one_if (above c (zscore t k m d)) ≡ zcount t k c d
    pub zscore-prune :
        (now : ℕ) (k : Key) (m : ℕ) (c : Cutoff) (d : Db)
        → zscore now k m (zremrangebyscore now k c d) ≡ kept c (zscore now k m d)
    pub zcount-prune :
        (now : ℕ) (k : Key) (c later : Cutoff) (d : Db)
        → c.instant + later.back ≤ later.instant + c.back
        → zcount now k later (zremrangebyscore now k c d) ≡ zcount now k later d
    pub zscore-expire :
        (now t : ℕ) (k : Key) (m ttl : ℕ) (d : Db)
        → now ≤ t
        → zscore t k m (expire now k ttl d) ≡ (if ltb t (now + ttl) then zscore now k m d else none)
    pub zcount-expire :
        (now t : ℕ) (k : Key) (c : Cutoff) (ttl : ℕ) (d : Db)
        → now ≤ t
        → zcount t k c (expire now k ttl d) ≡ (if ltb t (now + ttl) then zcount now k c d else 0)

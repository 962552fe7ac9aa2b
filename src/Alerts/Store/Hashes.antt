-- ===== src/Alerts/Store/Hashes.antt =====
-- What state_store.py uses of Redis: hashes under keys, each key with a time to live that every
-- write starts again (`hset` then `expire`).
use sen_sa.Prelude.{ℕ, ◌+◌, ◌≡◌, Option, none, some, String, arith, leb, if◌then◌else◌}
use sen_sa.Prelude.Text.{str_eq}

-- `TTL_SEC = 300`
abbrev pub ttl : ℕ
ttl = 300000000

pub record Cell (H : Type 0) : Type 0 where
  pub hash : H
  pub expires_at : ℕ

abbrev pub Keyspace : Type 0 → Type 0
Keyspace H = String → Option (Cell H)

unfoldable pub cell_at : {H : Type 0} → H → ℕ → Option (Cell H) → H
cell_at empty now none = empty
cell_at empty now (some c) = if leb c.expires_at now then empty else c.hash

-- `empty` stands for the hash without fields that a missing key reads as.
unfoldable pub hgetall : {H : Type 0} → H → Keyspace H → ℕ → String → H
unfolding cell_at
hgetall empty ks now key = cell_at empty now (ks key)

unfoldable pub hset : {H : Type 0} → H → Keyspace H → ℕ → String → (H → H) → Keyspace H
unfolding hgetall
hset empty ks now key f other =
    if str_eq key other
    then some (record { hash = f (hgetall empty ks now key); expires_at = now + ttl })
    else ks other

-- What a later read sees: the written hash until its time to live is over, at the same key only.
pub hgetall-hset :
    {H : Type 0} (empty : H) (ks : Keyspace H) (now later : ℕ) (key other : String) (f : H → H)
    → hgetall empty (hset empty ks now key f) later other ≡ (
        if str_eq key other
        then (if leb (now + ttl) later then empty else f (hgetall empty ks now key))
        else hgetall empty ks later other)
unfolding hset
hgetall-hset empty ks now later key other f = ground arith

-- ===== src/Infra/SkipList/Prefix.antt =====
-- The fields of a `TablePrefix` (src/infra/skip_list.h).
use Prim.Native.Nat.{bit_and, bit_or, Ordering}
use qstorage.Prelude.{ℕ, ◌+◌, ◌*◌, ◌/◌, ◌%◌, ◌^◌, ◌<◌, ◌≡◌, ◌↔◌, ◌⊎◌, ◌∙◌, arith}
use qstorage.Prelude.Bits.{◌<<◌, ◌>>◌, or_shifted, and_mask, and_lowest}
use qstorage.Prelude.Words.{u64_mod}
use qstorage.Infra.SkipList.{table_prefix, tenant_id, db_id, table_id, index_id, compare_prefix}

table_prefix-id :
    (tenant db table : ℕ)
    → tenant < 2 ^ 34
    → db < 2 ^ 14
    → table < 2 ^ 16
    → (table_prefix tenant db table).id ≡ tenant * 2 ^ 30 + db * 2 ^ 16 + table
unfolding table_prefix
table_prefix-id tenant db table t d b =
    let tenants : (tenant << 30) % u64_mod ≡ tenant << 30 = omega arith in
    let dbs : (db << 16) % u64_mod ≡ db << 16 = omega arith in
    let upper : bit_or (tenant << 30) (db << 16) ≡ (tenant * 2 ^ 14 + db) << 16 =
      or_shifted 30 tenant (db << 16) (omega arith) ∙ omega arith in
    rw (tenants, dbs, upper, or_shifted 16 (tenant * 2 ^ 14 + db) table b) (omega arith)

and_table : (a : ℕ) → bit_and a 0x3ff0 ≡ a / 16 % 1024 * 16
and_table a = omega (
  arith,
  and_lowest a 0x3ff0,
  and_lowest (a / 2) 0x1ff8,
  and_lowest (a / 2 / 2) 0xffc,
  and_lowest (a / 2 / 2 / 2) 0x7fe,
  and_mask 10 (a / 2 / 2 / 2 / 2),
)

-- What the four readers give back of a tenant below `2 ^ 34`, a database below `2 ^ 14` and a table
-- below `2 ^ 16`: the database whole, the tenant divided by 4, and of the table its lowest four
-- bits as the index and the ten bits above them in their place.
pub readers_lem :
    (tenant db table : ℕ)
    → tenant < 2 ^ 34
    → db < 2 ^ 14
    → table < 2 ^ 16
    → (tenant_id (table_prefix tenant db table) ≡ tenant / 4)
      × (db_id (table_prefix tenant db table) ≡ db)
      × (table_id (table_prefix tenant db table) ≡ table / 16 % 1024 * 16)
      × (index_id (table_prefix tenant db table) ≡ table % 16)
unfolding tenant_id db_id table_id index_id
readers_lem tenant db table t d b =
    let e = table_prefix-id tenant db table t d b in
    let p = table_prefix tenant db table in
    (
      omega (arith, e),
      omega (arith, and_mask 14 (p.id >> 16), e),
      omega (arith, and_table p.id, e),
      omega (arith, and_mask 4 p.id, e),
    )

-- `TablePrefixComp` orders prefixes whose parts fit by tenant, then by database, then by table.
pub compare_prefix-less :
    (tenant db table tenant' db' table' : ℕ)
    → tenant < 2 ^ 34
    → db < 2 ^ 14
    → table < 2 ^ 16
    → tenant' < 2 ^ 34
    → db' < 2 ^ 14
    → table' < 2 ^ 16
    → (compare_prefix (table_prefix tenant db table) (table_prefix tenant' db' table')
        ≡ Ordering.lt)
      ↔ ((tenant < tenant') ⊎ ((tenant ≡ tenant') × ((db < db') ⊎ ((db ≡ db') × (table < table')))))
unfolding compare_prefix
compare_prefix-less tenant db table tenant' db' table' t d b t' d' b' =
    let e = table_prefix-id tenant db table t d b in
    let e' = table_prefix-id tenant' db' table' t' d' b' in ground (arith, e, e')

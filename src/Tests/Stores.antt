-- ===== src/Tests/Stores.antt =====
-- The theorems on the job stores and on the lock, applied to concrete runs.
use guangyang.Prelude.{
  ℕ, ◌≡◌, refl, sym, ap, ◌∙◌, true, false, [], ◌∷◌, none, some, arith, Bool-cases, ◌+◌, inl, inr,
}
use guangyang.Prelude.Int.{ℤ, pos}
use guangyang.Text.{Str, codes, trim_space, trim_left, trim_right, is_space, is_blank, ◌===◌}
use guangyang.Domain.{CompareJob, processing, ready}
use guangyang.Errors.{GoError, new}
use guangyang.Effects.{found}
use guangyang.Excel.StrMap.{StrMap, lookup}
use guangyang.Store.{Cell, touched, exec_lost, stored, read_cell, update, key}
use guangyang.Store.Atomic.{Left, Outcome, update-Outcome, update-touched, read_cell-stored}
use guangyang.Store.Memory
use guangyang.Store.Agree.{Holds, db_update, update-agree}
use guangyang.RedisLock.Scripts.{acquire, px, ttl_or_default, live, set_nx, checked}
use guangyang.RedisLock.Exclusion.{
  World, acquired, tick, acquire_lost, here, next, init, after_reply, Reach-exclusive,
}
use guangyang.Tests.Codec.{encode, decode, decode-encode}

abbrev job : CompareJob
job = record {
  id = codes "a1";
  status = processing;
  created_at = 5;
  file1_path = codes "/tmp/1.xlsx";
  file2_path = codes "/tmp/2.xlsx";
  file1_oss_key = [];
  file2_oss_key = [];
  file1_name = codes "1.xlsx";
  file2_name = codes "2.xlsx";
  result_path = [];
  result_oss_key = [];
  amount_yuan = 0;
  code_url = [];
  paid = false;
  paid_at = none;
  cancelled_at = none;
  error = [];
}

abbrev release : CompareJob → CompareJob
release j = record j { status = ready; paid = true; paid_at = some 9 }

abbrev unreadable : GoError
unreadable = new (codes "unexpected end of JSON input")

named : is_blank (codes "a1") ≡ false
unfolding is_blank trim_space
named = refl

trimmed : trim_space (codes "a1") ≡ codes "a1"
unfolding trim_space
trimmed = refl

abbrev cell : Cell
cell = some (stored encode decode unreadable job)

abbrev other_cell : Cell
other_cell = some (stored encode decode unreadable (record job { paid = true }))

read_cell-stored_example : read_cell encode decode unreadable cell ≡ found job
read_cell-stored_example = read_cell-stored encode decode unreadable decode-encode job

-- Another client writes once, and then the reply of EXEC is lost.
update-Outcome_example :
    (seen : Cell) × (now : Cell) × Left cell
      (touched other_cell ∷ exec_lost unreadable true ∷ [])
      seen
      now
    × Outcome encode decode unreadable release seen now
        (update encode decode unreadable release
          (codes "a1")
          (touched other_cell ∷ exec_lost unreadable true ∷ [])
          cell).0
        (update encode decode unreadable release
          (codes "a1")
          (touched other_cell ∷ exec_lost unreadable true ∷ [])
          cell).1
update-Outcome_example =
    update-Outcome encode decode unreadable release (codes "a1")
      (touched other_cell ∷ exec_lost unreadable true ∷ []) cell named

other_read : read_cell encode decode unreadable other_cell ≡ found (record job { paid = true })
other_read = read_cell-stored encode decode unreadable decode-encode (record job { paid = true })

update-touched_example :
    update encode decode unreadable release (codes "a1") (touched other_cell ∷ []) cell
    ≡ (found (release job), some (stored encode decode unreadable (release job)))
update-touched_example =
    update-touched encode decode unreadable release (codes "a1") (other_cell ∷ []) cell
      (record job { paid = true }) named (omega arith)
      ((job, read_cell-stored_example), ((record job { paid = true }, other_read), tt)) other_read

abbrev jobs : StrMap CompareJob
jobs = (codes "a1", job) ∷ []

abbrev database : StrMap Str
database = (codes "gy:comparejob:a1", stored encode decode unreadable job) ∷ []

append_same : (id : Str) → (codes "gy:comparejob:a1" === key id) ≡ (codes "a1" === trim_space id)
unfolding key ◌===◌
append_same id = refl

jobs-Holds : Holds encode decode unreadable jobs database
unfolding lookup
jobs-Holds id trim =
    rw (append_same id, trim)
      (elim (Bool-cases (codes "a1" === id)) [ inl e ↦ rw e refl | inr e ↦ rw e refl ])

update-agree_example :
    ((db_update encode decode unreadable (codes "a1") release database).0
      ≡ (Memory.update (codes "a1") release jobs).0)
    × Holds encode decode unreadable
        (Memory.update (codes "a1") release jobs).1
        (db_update encode decode unreadable (codes "a1") release database).1
update-agree_example =
    update-agree encode decode unreadable decode-encode jobs database (codes "a1") release trimmed
      named jobs-Holds

-- Each worker's token is one character, of its own.
abbrev token : ℕ → Str
token i = (0x3001 + i) ∷ []

word_character : (i : ℕ) → is_space (0x3001 + i) ≡ false
unfolding is_space
word_character i = ground arith

trim_token : (i : ℕ) → trim_space (token i) ≡ token i
unfolding trim_space trim_left trim_right ◌===◌
trim_token i = rw (word_character i, word_character i) refl

token_distinct : (i j : ℕ) → trim_space (token i) ≡ trim_space (token j) → i ≡ j
token_distinct i j h =
    let e : token i ≡ token j = sym (trim_token i) ∙ h ∙ trim_token j in
    let c : 0x3001 + i ≡ 0x3001 + j = ap (λ s. first s) e in omega arith
  where
    first : Str → ℕ
    first [] = 0
    first (x ∷ _) = x

abbrev minute : ℤ
minute = pos 60_000_000_000

abbrev lock_key : Str
lock_key = codes "lock:compare:a1"

-- Worker 0 acquires the lock; a second later the reply to worker 1 is lost.
abbrev start : World lock_key token minute
start = init lock_key token minute

Reach-exclusive_example : ◌≡◌ {A = ℕ} 0 0
unfolding acquire checked set_nx live ttl_or_default after_reply trim_space is_blank px
Reach-exclusive_example =
    Reach-exclusive lock_key token minute token_distinct refl 0 0 60_000_000_000 60_000_000_000
      (next (next (next here (acquired 0)) (tick 1_000_000_000)) (acquire_lost 1)) refl
      (omega arith) refl (omega arith)

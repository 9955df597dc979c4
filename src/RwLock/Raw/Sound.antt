-- ===== src/RwLock/Raw/Sound.antt =====
-- src/rwlock/raw.rs: what every step of every task keeps of the two words.
use async_lock.Base.{ℕ, ◌+◌, ◌*◌, ◌^◌, ◌≤◌, ◌<◌, ◌≡◌, ◌⊎◌, refl, Bool, arith}
use async_lock.Event.{EventOps}
use async_lock.Mutex.Acquire.{Lock, poll, done, gone}
use async_lock.Mutex.Word.{locked, starving, aborting, IsCounted, poll-IsCounted}
use async_lock.RwLock.Raw.Counts.{
  reading, claiming, writing, locking, starved, failed, checked, wrong,
}
use async_lock.RwLock.Raw.Defs.{
  RawRwLock, tries_read, reads, tries_upgradable_read, upgradable_reads, tries_write, writes, Pc,
  ready, upgradable_locking, write_locking,
}
use async_lock.RwLock.Raw.{step, then_upgradable, then_write}

-- The word counts `r` readers and `b` writer's bits; `m` tasks have the mutex, whose word counts `v`
-- starved operations; `x` tasks may write; `q` tasks are past the check of an upgradable read.
pub record IsSound (state mutex r b x m v a q w : ℕ) : Type 0 where
  pub mutex_word : IsCounted mutex m v a
  pub exact : state ≡ 2 * r + b
  pub exclusive : (x ≡ 0) ⊎ (r ≡ 0)
  pub bounded : state ≤ 2 ^ 63 + 3
  pub calm : (q ≡ 0) ⊎ (state ≤ 2 ^ 63)
  pub fresh : w ≡ 0

-- What the other tasks count for: fewer than 2 ^ 62 of them wait for the mutex.
pub record Others (b x m v q : ℕ) : Type 0 where
  pub few : v < 2 ^ 62
  pub claims : b ≤ m
  pub writes_le : x ≤ b
  pub checks : q ≤ m

abbrev pub Sound :
    {Event Listener : Type 0} → RawRwLock Event → Pc Listener → (r b x m v a q w : ℕ) → Type 0
Sound s p r b x m v a q w =
    IsSound s.state s.mutex.state (reading p + r) (claiming p + b) (writing p + x) (locking p + m)
      (starved p + v) (failed p + a) (checked p + q) (wrong p + w)

-- A task at a `Lock` future, and where its poll leads, counts in the mutex's word alone.
abbrev pub CountsAs : {Listener : Type 0} → Pc Listener → Lock Listener → Type 0
CountsAs p l =
    (reading p ≡ 0)
    × (claiming p ≡ 0)
    × (writing p ≡ 0)
    × (locking p ≡ locked l)
    × (starved p ≡ starving l)
    × (failed p ≡ aborting l)
    × (checked p ≡ 0)
    × (wrong p ≡ 0)

pub then_upgradable-CountsAs :
    {Listener : Type 0} (l : Lock Listener) → CountsAs (then_upgradable l) l
unfolding then_upgradable
then_upgradable-CountsAs (done l) = omega arith
then_upgradable-CountsAs gone = omega arith
then_upgradable-CountsAs l = (refl, refl, refl, refl, refl, refl, refl, refl)

pub then_write-CountsAs : {Listener : Type 0} (l : Lock Listener) → CountsAs (then_write l) l
unfolding then_write
then_write-CountsAs (done l) = omega arith
then_write-CountsAs gone = omega arith
then_write-CountsAs l = (refl, refl, refl, refl, refl, refl, refl, refl)

module _ {Event Listener : Type 0} (E : EventOps Event Listener) where
  pub step-Sound :
      (late cancel : Bool) (s : RawRwLock Event) (p : Pc Listener) (r b x m v a q w : ℕ)
      → Others b x m v q
      → Sound s p r b x m v a q w
      → let y = step E late cancel s p in Sound y.0 y.1 r b x m v a q w
  unfolding step
  step-Sound late cancel s (ready tries_read) r b x m v a q w o i = ground arith
  step-Sound late cancel s (ready reads) r b x m v a q w o i = ground arith
  step-Sound late cancel s (ready tries_upgradable_read) r b x m v a q w o i = ground arith
  step-Sound late cancel s (ready upgradable_reads) r b x m v a q w o i = ground arith
  step-Sound late cancel s (ready tries_write) r b x m v a q w o i = ground arith
  step-Sound late cancel s (ready writes) r b x m v a q w o i = ground arith
  step-Sound late cancel s (upgradable_locking l) r b x m v a q w o i = ground (
    arith,
    poll-IsCounted E late cancel s.mutex l m v a o.few i.mutex_word,
    then_upgradable-CountsAs (poll E late cancel s.mutex l).1,
  )
  step-Sound late cancel s (write_locking l) r b x m v a q w o i = ground (
    arith,
    poll-IsCounted E late cancel s.mutex l m v a o.few i.mutex_word,
    then_write-CountsAs (poll E late cancel s.mutex l).1,
  )
  step-Sound late cancel s p r b x m v a q w o i = ground arith

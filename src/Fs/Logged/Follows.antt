-- ===== src/Fs/Logged/Follows.antt =====
-- A writer of fs.c (xv6-public/fs.c) with its calls of `log_write` does what it does without them, while
-- the log has room.
use ele.Base.{
  ℕ, zero, suc, ◌+◌, ◌-◌, ◌*◌, ◌≤◌, ◌<◌, ◌^◌, ◌≡◌, refl, true, arith, ◌==◌, ltb, if◌then◌else◌,
  update, Bool-cases, Option-cases, inl, inr, Result, ok, panic, ◌>>=◌,
}
use ele.Log.{logsize, absorb_index, log_write}
use ele.Args.{word_at}
use ele.Fs.{Superblock, Disk, bpb, bblock}
use ele.Fs.Blocks.{balloc_scan, bzero, mark, balloc_loop, balloc, bitmap_blocks}
use ele.Fs.Inode.{Inode}
use ele.Fs.Content.{bmap_slot, bmap_entry, bmap, ndirect, nindirect}
use ele.Fs.Logged.{Tx, note, balloc_logged, bmap_slot_logged, bmap_entry_logged, bmap_logged}

-- In a transaction, the log has room for `k` more calls of `log_write`.
pub record Room (k : ℕ) (t : Tx) : Type 0 where
  pub entries : t.0.n + k ≤ logsize
  pub blocks : t.0.n + k < t.0.size
  pub sized : t.0.size < 2 ^ 31
  pub trans : 0 < t.0.outstanding
  pub counted : t.0.outstanding < 2 ^ 31

pub Room-le : (k j : ℕ) {t : Tx} → j ≤ k → Room k t → Room j t
Room-le k j h r = record {
  entries = omega (arith, r.entries);
  blocks = omega (arith, r.blocks);
  sized = r.sized;
  trans = r.trans;
  counted = r.counted;
}

-- A call of `log_write` takes one place at most.
pub note-Room : (k b : ℕ) (t : Tx) → Room (suc k) t → (t' : Tx) × (note b t ≡ ok t') × Room k t'
unfolding log_write
note-Room k b (log, st) r =
    let i = absorb_index log.block b 0 log.n in
    (
      (
        record log { block = update log.block i b; n = if i == log.n then log.n + 1 else log.n },
        record st { dirty = update st.dirty b true },
      ),
      ground (arith, r.entries, r.blocks, r.sized, r.trans, r.counted),
      record {
        entries = ground (arith, r.entries);
        blocks = ground (arith, r.blocks);
        sized = r.sized;
        trans = r.trans;
        counted = r.counted;
      },
    )

-- The run `r` in a transaction ends as the run without one does, and leaves room for `j` calls.
abbrev pub Follows : {A : Type 0} → ℕ → Result A → Result (A × Tx) → Type 0
Follows j (panic s) r = r ≡ panic s
Follows j (ok a) r = (t : Tx) × (r ≡ ok (a, t)) × Room j t

pub Follows-bind :
    {A B : Type 0} (k j : ℕ) (m : Result A) (m' : Result (A × Tx)) (f : A → Result B)
    (f' : A × Tx → Result (B × Tx))
    → Follows k m m'
    → ((a : A) (t : Tx) → Room k t → Follows j (f a) (f' (a, t)))
    → Follows j (m >>= f) (m' >>= f')
Follows-bind k j (panic s) m' f f' h g = rw h refl
Follows-bind k j (ok a) m' f f' (t, e, room) g = rw e (g a t room)

pub Follows-note :
    {A : Type 0} (k j b : ℕ) (t : Tx) (m : Result A) (f' : Tx → Result (A × Tx))
    → Room (suc k) t
    → ((t' : Tx) → Room k t' → Follows j m (f' t'))
    → Follows j m (note b t >>= f')
Follows-note k j b t m f' room g = let (t', e, r) = note-Room k b t room in rw e (g t' r)

-- Where the call is the last thing that happens.
pub Follows-last :
    {A : Type 0} (j b : ℕ) (t : Tx) (a : A)
    → Room (suc j) t
    → Follows j (ok a) (note b t >>= λ t'. ok (a, t'))
Follows-last {A} j b t a room =
    Follows-note {A = A} j j b t (ok a) (λ t'. ok (a, t')) room (λ t' r. (t', refl, r))

balloc-Follows :
    (j : ℕ) (sb : Superblock) (left b : ℕ) (d : Disk) (t : Tx)
    → Room (suc (suc j)) t
    → Follows j (balloc_loop sb left b d) (balloc_logged sb left b d t)
unfolding balloc_loop balloc_logged
balloc-Follows j sb zero b d t room = refl
balloc-Follows j sb (suc left) b d t room =
    elim (Option-cases (balloc_scan (d (bblock sb b)) b sb.size 0 bpb)) [
      | inl e ↦ rw (e, balloc_loop, balloc_logged) (balloc-Follows j sb left (b + bpb) d t room)
      | inr (bi, e) ↦
          rw (e, balloc_loop, balloc_logged)
            (let out : ℕ × Disk =
                (b + bi, bzero (b + bi) (update d (bblock sb b) (mark bi (d (bblock sb b))))) in
              Follows-note (suc j) j (bblock sb b) t (ok out)
                (λ t1. note (b + bi) t1 >>= λ t2. ok (out, t2)) room
                (λ t1 r1. Follows-last j (b + bi) t1 out r1))
    ]

bmap_slot-Follows :
    (j : ℕ) (sb : Superblock) (ip : Inode) (i : ℕ) (d : Disk) (t : Tx)
    → Room (suc (suc j)) t
    → Follows j (bmap_slot sb ip i d) (bmap_slot_logged sb ip i d t)
unfolding bmap_slot bmap_slot_logged balloc
bmap_slot-Follows j sb ip i d t room = elim (Bool-cases (ip.addrs i == 0)) [
  | inl e ↦
      rw (e, bmap_slot, bmap_slot_logged)
        (Follows-bind j j (balloc_loop sb (bitmap_blocks sb) 0 d) _ _ _
          (balloc-Follows j sb (bitmap_blocks sb) 0 d t room) (λ a t' r. (t', refl, r)))
  | inr e ↦
      rw (e, bmap_slot, bmap_slot_logged) (t, refl, Room-le (suc (suc j)) j (omega arith) room)
]

bmap_entry-Follows :
    (j : ℕ) (sb : Superblock) (ip : Inode) (addr bn : ℕ) (d : Disk) (t : Tx)
    → Room (suc (suc (suc j))) t
    → Follows j (bmap_entry sb ip addr bn d) (bmap_entry_logged sb ip addr bn d t)
unfolding bmap_entry bmap_entry_logged balloc
bmap_entry-Follows j sb ip addr bn d t room = elim (Bool-cases (word_at (d addr) (4 * bn) == 0)) [
  | inl e ↦
      rw (e, bmap_entry, bmap_entry_logged)
        (Follows-bind (suc j) j (balloc_loop sb (bitmap_blocks sb) 0 d) _ _ _
          (balloc-Follows (suc j) sb (bitmap_blocks sb) 0 d t room)
          (λ a t' r. Follows-last j addr t' _ r))
  | inr e ↦
      rw (e, bmap_entry, bmap_entry_logged)
        (t, refl, Room-le (suc (suc (suc j))) j (omega arith) room)
]

-- `bmap` makes five calls of `log_write` at most.
pub bmap-Follows :
    (j : ℕ) (sb : Superblock) (ip : Inode) (bn : ℕ) (d : Disk) (t : Tx)
    → Room (suc (suc (suc (suc (suc j))))) t
    → Follows j (bmap sb ip bn d) (bmap_logged sb ip bn d t)
unfolding bmap bmap_logged
bmap-Follows j sb ip bn d t room = elim (Bool-cases (ltb bn ndirect)) [
  | inl e ↦ rw (e) (
      bmap_slot-Follows j sb ip bn d t
        (Room-le (suc (suc (suc (suc (suc j))))) (suc (suc j)) (omega arith) room))
  | inr e ↦ elim (Bool-cases (ltb (bn - ndirect) nindirect)) [
    | inr out ↦ rw (e, out) refl
    | inl inside ↦
        rw (e, inside)
          (Follows-bind (suc (suc (suc j))) j (bmap_slot sb ip ndirect d) _ _ _
            (bmap_slot-Follows (suc (suc (suc j))) sb ip ndirect d t room)
            (λ (a, (ip', d')) t' r. bmap_entry-Follows j sb ip' a (bn - ndirect) d' t' r))
  ]
]

-- ===== src/Tests/Vioblk.antt =====
-- src/kern/vioblk.c at concrete inputs: a disk in memory that answers the requests.
use illinux.Prelude.{
  ℕ, ◌+◌, ◌*◌, ◌%◌, ◌≤◌, ◌<◌, ◌≡◌, refl, ap, ◌∙◌, true, false, ◌==◌, if◌then◌else◌, arith,
}
use illinux.Cmd.{done}
use illinux.Errno.{ok}
use illinux.Mem.{Mem, memcpy, memcpy_lem, within}
use illinux.Vioblk.{t_in, Request, Answer, Vioblk, vioblk_read, vioblk_write}
use illinux.Vioblk.Reads.{IsReadable, vioblk_read_lem}
use illinux.Vioblk.Writes.{IsWritable, vioblk_write_lem}

abbrev give : Mem → Mem → ℕ → ℕ → Answer Mem
give d m status sector = record {
  status = status;
  disk = d;
  buffer = λ i. if status == 0 then d (sector * 512 + i) else m i;
}

-- A read needs a buffer that the device may write, a write one that it may not.
abbrev serve : Request → Mem → Mem → Answer Mem
serve r d m = if r.type == t_in then give d m (if r.writable then 0 else 1) r.sector else record {
  status = if r.writable then 1 else 0;
  disk = if r.writable then d else memcpy d (r.sector * 512) m 0 512;
  buffer = m;
}

serve-IsReadable : IsReadable Mem serve (λ d. d)
serve-IsReadable = record {
  served = λ r d m is_read size marked. rw (is_read, marked) (refl, refl, λ i lt. refl);
}

abbrev disk : Mem
disk i = i % 256

abbrev device : Vioblk Mem
device = record {
  opened = true;
  readonly = false;
  blksz = 512;
  pos = 1024;
  size = 4096;
  bufblkno = 0;
  blkbuf = λ i. 0;
  data_writable = false;
  avail_idx = 0;
  vio_lock = false;
  disk = disk;
}

vioblk_read_lem_example :
    (dev' : Vioblk Mem) × (buf' : Mem) × (vioblk_read serve 3 (λ i. 0) 1024 device
      ≡ done (buf', ok 1024) dev')
    × ((i : ℕ) → i < 1024 → buf' i ≡ disk (1024 + i))
    × (dev'.pos ≡ 2048)
    × (dev'.disk ≡ disk)
    × (dev'.vio_lock ≡ false)
vioblk_read_lem_example =
    vioblk_read_lem serve (λ d. d) serve-IsReadable 2 3 (λ i. 0) device refl refl refl (omega arith)
      (omega arith) (omega arith) (omega arith) (omega arith)

serve-IsWritable : IsWritable Mem serve (λ d. d)
serve-IsWritable = record {
  served = λ r d m is_write size clear.
      rw (is_write, clear)
        (
          refl,
          (λ i lt.
              let hit : within (r.sector * 512) 512 (r.sector * 512 + i) ≡ true =
                ground (arith, lt) in
              memcpy_lem d (r.sector * 512) m 0 512 (r.sector * 512 + i)
              ∙ rw hit (ap m (omega arith))),
          (λ j out. memcpy_lem d (r.sector * 512) m 0 512 j ∙ rw out refl),
        );
}

-- Two sectors, from a position that is not 0.
vioblk_write_lem_example :
    (dev' : Vioblk Mem) × (vioblk_write serve 3 (λ i. 7) 1024 device ≡ done (ok 1024) dev')
    × ((i : ℕ) → i < 1024 → dev'.disk i ≡ 7)
    × ((j : ℕ) → 1024 ≤ j → dev'.disk j ≡ disk j)
    × (dev'.pos ≡ 2048)
    × (dev'.vio_lock ≡ false)
vioblk_write_lem_example =
    vioblk_write_lem serve (λ d. d) serve-IsWritable 2 3 (λ i. 7) device refl refl refl refl refl
      (omega arith) (omega arith) (omega arith) (omega arith)

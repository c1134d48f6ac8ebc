-- ===== src/Tests/Blocks.antt =====
-- The theorems of Vioblk on a device of two blocks of 512 bytes, which is a list of bytes.
use operating_systems_final.Prelude.{
  ℕ, ◌*◌, ◌≡◌, refl, inl, inr, true, false, List, [], ◌∷◌, arith, length, replicate, length-take,
  length-replicate,
}
use operating_systems_final.Errno.{done}
use operating_systems_final.Io.Laws.{slice, splice}
use operating_systems_final.Vioblk.{
  Request, t_in, t_out, TransferFn, Vioblk, no_block, vioblk_read, vioblk_write,
}
use operating_systems_final.Vioblk.Coherent.{Works, IsCoherent}
use operating_systems_final.Vioblk.Reads.{vioblk_read-slice}
use operating_systems_final.Vioblk.Stale.{vioblk_write-stale}
use operating_systems_final.Vioblk.Writes.{vioblk_write-splice}
use operating_systems_final.Vioblk.Roundtrip.{vioblk_read-write}

abbrev pub list_transfer : TransferFn (List ℕ)
list_transfer t_in sector buf d = (0, slice (sector * 512) (length buf) d, d)
list_transfer t_out sector buf d = (0, buf, splice (sector * 512) buf d)

abbrev pub list_after : Request → ℕ → List ℕ → List ℕ → List ℕ
list_after t_in sector buf d = d
list_after t_out sector buf d = splice (sector * 512) buf d

abbrev pub list_works : Works list_transfer
list_works = record {
  Up = λ d. Unit;
  contents = λ d. d;
  after = list_after;
  reads = λ sector buf d up h. (refl, tt, refl);
  writes = λ sector buf d up h. (refl, tt, refl);
}

-- The device holds zeros, the buffer sevens that belong to no block, and the position is 100.
abbrev pub zeros : Vioblk (List ℕ)
zeros = record {
  dev = replicate 1024 0;
  opened = true;
  readonly = false;
  blksz = 512;
  pos = 100;
  size = 1024;
  blkcnt = 2;
  bufblkno = no_block;
  blkbuf = replicate 512 7;
}

pub zeros-IsCoherent : IsCoherent list_works zeros
zeros-IsCoherent = record {
  up = tt;
  positive = omega arith;
  sectors = refl;
  whole = refl;
  backed = omega (arith, length-replicate {A = ℕ} 1024 0);
  word = omega arith;
  room = length-replicate {A = ℕ} 512 7;
  cached = λ h. absurd (omega arith);
  within = omega arith;
}

vioblk_read-slice_example :
    (v' : Vioblk (List ℕ)) × (vioblk_read list_transfer zeros 2000
      ≡ (done 924, slice 100 924 (replicate 1024 0), v'))
    × IsCoherent list_works v'
    × (v'.dev ≡ replicate 1024 0)
    × (v'.size ≡ 1024)
    × (v'.pos ≡ 1024)
vioblk_read-slice_example = vioblk_read-slice list_works zeros 2000 zeros-IsCoherent (omega arith)

vioblk_write-stale_example :
    (v' : Vioblk (List ℕ)) × (vioblk_write list_transfer zeros (1 ∷ 2 ∷ []) ≡ (done 2, v'))
    × IsCoherent list_works v'
    × (v'.dev ≡ splice 0 (splice 100 (1 ∷ 2 ∷ []) (replicate 512 7)) (replicate 1024 0))
vioblk_write-stale_example =
    vioblk_write-stale list_works zeros 1 (2 ∷ []) zeros-IsCoherent refl (omega arith) (omega arith)
      (omega arith) (λ e. omega arith)

-- The same with the first block in the buffer.
abbrev cached_zeros : Vioblk (List ℕ)
cached_zeros = record zeros { bufblkno = 0; blkbuf = slice 0 512 (replicate 1024 0) }

cached_zeros-IsCoherent : IsCoherent list_works cached_zeros
cached_zeros-IsCoherent = record {
  up = tt;
  positive = omega arith;
  sectors = refl;
  whole = refl;
  backed = omega (arith, length-replicate {A = ℕ} 1024 0);
  word = omega arith;
  room = omega (arith, length-take {A = ℕ} 512 (replicate 1024 0), length-replicate {A = ℕ} 1024 0);
  cached = λ h. refl;
  within = omega arith;
}

vioblk_write-splice_example :
    (v' : Vioblk (List ℕ)) × (vioblk_write list_transfer cached_zeros (1 ∷ 2 ∷ []) ≡ (done 2, v'))
    × IsCoherent list_works v'
    × (v'.dev ≡ splice 100 (1 ∷ 2 ∷ []) (replicate 1024 0))
    × (v'.size ≡ 1024)
    × (v'.pos ≡ 102)
vioblk_write-splice_example =
    vioblk_write-splice list_works cached_zeros (1 ∷ 2 ∷ []) cached_zeros-IsCoherent refl
      (omega arith) (omega arith) (inr refl) (inl (omega arith)) (omega arith)

vioblk_read-write_example :
    (v₁ : Vioblk (List ℕ)) × (v₂ : Vioblk (List ℕ)) × (vioblk_write list_transfer cached_zeros
        (1 ∷ 2 ∷ [])
      ≡ (done 2, v₁))
    × (vioblk_read list_transfer (record v₁ { pos = 100 }) 2 ≡ (done 2, 1 ∷ 2 ∷ [], v₂))
vioblk_read-write_example =
    vioblk_read-write list_works cached_zeros (1 ∷ 2 ∷ []) cached_zeros-IsCoherent refl
      (omega arith) (omega arith) (inr refl) (inl (omega arith)) (omega arith)

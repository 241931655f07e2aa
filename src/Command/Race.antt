-- ===== src/Command/Race.antt =====
-- Two threads of a minion on the one stream: MinionWriteCmd::Execute of src/command.cpp takes no lock
-- between its seek and its write.
use iot_drive.Shared.{
  ℕ, ◌+◌, ◌≤◌, ◌≡◌, refl, ap, ◌∙◌, inl, true, List, [], ◌∷◌, some, ok, bind, arith, length,
}
use iot_drive.Buffer.{source_bytes}
use iot_drive.ArgsKey.{minion_write_args}
use iot_drive.Message.Identity.{Uid}
use iot_drive.Storage.{BinFile, write_at, slice, seek, file_write, get_bin_file}
use iot_drive.Storage.Slices.{write_at-outside, slice-cong}
use iot_drive.Proxy.{Memory}
use iot_drive.Proxy.MasterProxy.{write_response}
use iot_drive.Command.{execute_minion_write}

-- A call on the stream.
pub data Access : Type 0 where
  seeks : ℕ → Access
  writes : List ℕ → Access

unfoldable pub access : Access → BinFile → BinFile
access (seeks p) f = seek p f
access (writes bs) f = file_write bs f

unfoldable pub access_all : List Access → BinFile → BinFile
access_all [] f = f
access_all (a ∷ rest) f = access_all rest (access a f)

-- The calls of MinionWriteCmd::Execute.
abbrev pub write_accesses : ℕ → List ℕ → List Access
write_accesses offset bs = seeks offset ∷ writes bs ∷ seeks 0 ∷ []

-- One thread alone.
execute_minion_write-access_all :
    (mem : Memory) (key offset size : ℕ) (bytes : List ℕ) (uid : Uid) (f : BinFile)
    → execute_minion_write mem (minion_write_args key offset size (some bytes) uid) f
      ≡ bind (source_bytes (some bytes) size) (λ bs.
        bind
          (write_response mem uid true)
          λ packet. ok (packet, access_all (write_accesses offset bs) (get_bin_file f)))
unfolding execute_minion_write access_all access
execute_minion_write-access_all mem key offset size bytes uid f = refl

-- The calls of two threads in one order.
pub data Interleaved : List Access → List Access → List Access → Type 0 where
  ends : Interleaved [] [] []
  first :
      (a : Access) (xs ys zs : List Access)
      → Interleaved xs ys zs
      → Interleaved (a ∷ xs) ys (a ∷ zs)
  second :
      (a : Access) (xs ys zs : List Access)
      → Interleaved xs ys zs
      → Interleaved xs (a ∷ ys) (a ∷ zs)

-- The second thread seeks between the seek and the write of the first.
abbrev mixed : ℕ → ℕ → List ℕ → List ℕ → List Access
mixed p q bs cs = seeks p ∷ seeks q ∷ writes bs ∷ writes cs ∷ seeks 0 ∷ seeks 0 ∷ []

mixed-Interleaved :
    (p q : ℕ) (bs cs : List ℕ)
    → Interleaved (write_accesses p bs) (write_accesses q cs) (mixed p q bs cs)
mixed-Interleaved p q bs cs =
    first _ _ _ _
      (second _ _ _ _ (first _ _ _ _ (second _ _ _ _ (first _ _ _ _ (second _ _ _ _ ends)))))

content-mixed :
    (p q : ℕ) (bs cs : List ℕ) (f : BinFile)
    → f.good ≡ true
    → (access_all (mixed p q bs cs) f).content
      ≡ write_at (write_at f.content q bs) (q + length bs) cs
unfolding access_all access seek file_write
content-mixed p q bs cs f good = rw good refl

-- Two writes by two threads of a minion, to places of which the second is behind the first, on a stream that is good: there
-- is an order of their calls, each in its own order, after which the bytes of the first write lie at
-- the place of the second, those of the second behind them, and the place of the first write is as it
-- was.
pub write_accesses_race :
    (p q : ℕ) (bs cs : List ℕ) (f : BinFile)
    → f.good ≡ true
    → p + length bs ≤ q
    → (calls : List Access) × Interleaved (write_accesses p bs) (write_accesses q cs) calls
      × ((access_all calls f).content ≡ write_at (write_at f.content q bs) (q + length bs) cs)
      × (slice (access_all calls f).content p (length bs) ≡ slice f.content p (length bs))
write_accesses_race p q bs cs f good behind =
    let e = content-mixed p q bs cs f good in
    (
      mixed p q bs cs,
      mixed-Interleaved p q bs cs,
      e,
      ap (λ c. slice c p (length bs)) e
          ∙ slice-cong (write_at (write_at f.content q bs) (q + length bs) cs) f.content p p
              (length bs)
              (λ i lt.
                write_at-outside (write_at f.content q bs) (q + length bs) cs (p + i)
                  (inl (omega (arith, lt, behind)))
                ∙ write_at-outside f.content q bs (p + i) (inl (omega (arith, lt, behind)))),
    )

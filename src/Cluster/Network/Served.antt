-- ===== src/Cluster/Network/Served.antt =====
-- One write datagram that a minion serves: what it changes, and what it leaves.
use iot_drive.Shared.{
  ℕ, ◌+◌, ◌≤◌, ◌<◌, ◌≡◌, refl, sym, ap, subst, ◌∙◌, ◌⊎◌, inl, inr, Bool, true, List, ◌∷◌, ok, arith,
  length,
}
use native.Mathlib.Decide.{ℕ_discrete}
use iot_drive.Message.{new_minion_write_msg}
use iot_drive.Message.Format.{encode}
use iot_drive.Storage.{write_at, slice}
use iot_drive.Storage.Slices.{write_at-outside, slice-cong, slice-write_at, write_at-lt}
use iot_drive.Proxy.{Memory}
use iot_drive.Proxy.Delivery.{tick}
use iot_drive.Command.Requests.{write_msg-IsValid}
use iot_drive.Command.Answers.{written, written-IsReady, content-written}
use iot_drive.Command.Serving.{minion_serve-write}
use iot_drive.Cluster.{update}
use iot_drive.Cluster.Serve.{Works, all-update}
use iot_drive.Cluster.Delivered.{update_at, update_else}
use iot_drive.Cluster.Network.{Net, serve_request}
use iot_drive.Cluster.Network.Datagrams.{Sent, IsSent, datagram, content_of, Stored, Disjoint}

abbrev pub answer_of : Sent → List ℕ
answer_of w = encode (new_minion_write_msg w.uid true)

abbrev pub served : Sent → Net → Net
served w c = record c {
  minions = update c.minions w.minion (record {
    process = tick (c.minions w.minion).process;
    file = written w.offset w.bytes (c.minions w.minion).file;
  });
  answers = answer_of w ∷ c.answers;
}

module _ (w : Sent) (c : Net) (works : (k : ℕ) → Works (c.minions k)) where
  content-served :
      content_of (served w c) w.minion ≡ write_at (content_of c w.minion) w.offset w.bytes
  content-served =
      ap (λ m. m.file.content) (update_at c.minions w.minion _)
      ∙ content-written w.offset w.bytes (c.minions w.minion).file (works w.minion).ready

  pub Stored-served : Stored w (content_of (served w c))
  Stored-served =
      ap (λ f. slice f w.offset (length w.bytes)) content-served
      ∙ slice-write_at (content_of c w.minion) w.offset w.bytes

  outside :
      (v : Sent) (x : ℕ)
      → Disjoint w v
      → x < length v.bytes
      → (v.offset + x < w.offset) ⊎ (w.offset + length w.bytes ≤ v.offset + x)
  outside v x (inl d) lt = inr (omega (arith, d))
  outside v x (inr d) lt = inl (omega (arith, d, lt))

  pub Stored-kept :
      (v : Sent)
      → (w.minion ≡ v.minion → Disjoint w v)
      → Stored v (content_of c)
      → Stored v (content_of (served w c))
  Stored-kept v apart h =
      let k = w.minion in
      let o = v.offset in
      let l = length v.bytes in
      elim (ℕ_discrete v.minion k) [
        | no other ↦
            ap (λ m. slice m.file.content o l) (update_else c.minions k v.minion _ other) ∙ h
        | yes same ↦
            ap (λ m. slice (content_of (served w c) m) o l) same
            ∙ ap (λ f. slice f o l) content-served
            ∙ slice-cong (write_at (content_of c k) w.offset w.bytes) (content_of c k) o o l
                (λ x lt.
                  write_at-outside (content_of c k) w.offset w.bytes (o + x)
                    (outside v x (apart (sym same)) lt))
            ∙ ap (λ m. slice (content_of c m) o l) (sym same)
            ∙ h
      ]

  module _ (debug : Bool) (mem : Memory) (well : IsSent w) where
    pub serve_request-datagram : serve_request debug mem (datagram w) c ≡ ok (served w c)
    unfolding serve_request
    serve_request-datagram =
        rw
          (minion_serve-write debug mem (c.minions w.minion) (works w.minion).ready
            (works w.minion).timely w.offset w.bytes w.uid
            (write_msg-IsValid w.offset (length w.bytes) w.bytes w.uid well.uid_fits
              well.offset_fits well.short refl well.are_bytes)
            well.uid_fits)
          refl

  pub served-Works : IsSent w → (k : ℕ) → Works ((served w c).minions k)
  served-Works well = all-update Works c.minions w.minion _ works (record {
    timely = (works w.minion).timely;
    ready = written-IsReady w.offset w.bytes (c.minions w.minion).file (works w.minion).ready;
    bytes =
        subst (λ f. (x : ℕ) → f x < 256)
          (sym (content-written w.offset w.bytes (c.minions w.minion).file (works w.minion).ready))
          (write_at-lt 256 (content_of c w.minion) w.offset w.bytes (works w.minion).bytes
            well.are_bytes);
  })

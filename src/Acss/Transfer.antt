-- ===== src/Acss/Transfer.antt =====
-- What one node encodes, another decodes.
use adkg.Base.{◌+◌, ◌<◌, ◌≡◌, ◌≢◌, refl, some, List, [], arith}
use adkg.Messages.{Text, Share}
use adkg.Runtime.{Runtime}
use adkg.Rbc.{SharingStore, decode_ready}
use adkg.Pkcs7.RoundTrip.{pkcs7_unpad-pkcs7_pad}
use adkg.Acss.{encode}

-- A message that is not empty, encoded for the threshold `k = f + 1`, is what a node decodes from its
-- ready shares, if the erasure code recovers from them the block that it made the shares of.
pub decode_ready-encode :
    (rt : Runtime) (msg : Text) (shares : List Share) (s : SharingStore)
    → msg ≢ []
    → rt.k ≡ rt.f + 1
    → rt.k < 256
    → ((block : Text)
        → rt.encode rt.k rt.n block ≡ some shares
        → (rt.decode (rt.f + 1) rt.n s.ready_store).1 ≡ some block)
    → encode rt msg ≡ some shares
    → (decode_ready rt s).1 ≡ some msg
unfolding encode decode_ready
decode_ready-encode rt msg shares s ne kf small recovers sent =
    let (block, padded, whole, back) = pkcs7_unpad-pkcs7_pad msg rt.k ne (omega arith) small in
    let recovered = recovers block (rw (encode, padded) at sent) in
    rw (decode_ready, recovered, ← kf, back) refl

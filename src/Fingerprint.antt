-- ===== src/Fingerprint.antt =====
-- FrontEnd/src/hooks/useFingerprint.ts. The library FingerprintJS is a parameter: the outcome of
-- `load().then(fp => fp.get())`, `none` if it fails; so is `crypto.randomUUID()`.
use voting_app.Prelude.{
  Option, some, Text, true, false, if◌then◌else◌, ◌≡◌, arith, is_empty, get_or_else,
}
use voting_app.Storage.{Storage, truthy}

pub record Hook : Type 0 where
  pub fingerprint : Option Text
  pub storage : Storage

-- The initial state is what `localStorage` holds.
unfoldable pub use_fingerprint : Storage → Hook
use_fingerprint s = record { fingerprint = s.voter_fp; storage = s }

abbrev pub store_fp : Text → Hook → Hook
store_fp id h = record {
  fingerprint = some id;
  storage = record (h.storage) { voter_fp = some id };
}

-- The effect, run to its end: nothing if a value is cached, else the visitor id or the fallback.
unfoldable pub effect : Option Text → Text → Hook → Hook
effect visitor_id fallback h =
    if truthy h.fingerprint then h else store_fp (get_or_else fallback visitor_id) h

-- If the library's id and the fallback are not empty, the effect ends with a fingerprint that is not
-- empty and equal to the stored one, whenever the hook's state and the storage agreed before.
pub effect_ready :
    (visitor_id : Option Text) (fallback : Text) (s : Storage)
    → is_empty (get_or_else fallback visitor_id) ≡ false
    → let h = effect visitor_id fallback (use_fingerprint s) in
      (truthy h.fingerprint ≡ true) × (h.storage.voter_fp ≡ h.fingerprint)
unfolding effect use_fingerprint
effect_ready visitor_id fallback s e = ground arith

-- The fingerprint is stable: a later visit, with any other answer of the library, keeps it and the
-- storage.
pub effect_stable :
    (v w : Option Text) (f g : Text) (s : Storage)
    → is_empty (get_or_else f v) ≡ false
    → let h = effect v f (use_fingerprint s) in effect w g (use_fingerprint h.storage) ≡ h
unfolding effect use_fingerprint
effect_stable v w f g s e = ground arith

-- ===== src/Cnode/Quiet.antt =====
-- cnode/cnode.go: the steps on a frame that was read neither read nor write.
use mochi_beam.Base.{
  ℕ, zero, suc, ◌+◌, ◌%◌, ◌^◌, ◌≡◌, refl, Bool, true, false, [], ◌∷◌, ltb, length, take, drop, ◌||◌,
  if◌then◌else◌, ◌==◌,
}
use mochi_beam.Text.Chars.{text_eq}
use mochi_beam.Etf.Term.{Bytes}
use mochi_beam.Etf.Wire.{big_endian}
use mochi_beam.Cnode.Conn.{
  Outcome, ok, err, panic, Conn, Run, expected_status, expected_ack, fail, pure, digest_mismatch,
  ◌>>=◌, fault, empty_challenge, unexpected_challenge, name_truncated, new_challenge_short,
  old_challenge_short,
}
use mochi_beam.Cnode.Handshake.{
  index, slice, lacks_tag, status_of, check_ack, new_challenge, old_challenge, challenge_of,
}

-- A step that neither reads nor writes: its outcome does not depend on the connection.
abbrev pub IsQuiet {ℓ} : {A : Type ℓ} → Run A → Type ℓ
IsQuiet {A} m = (r : Outcome A) × ((c : Conn) → m c ≡ (r, c))

pub IsQuiet-bind {ℓ κ} :
    {A : Type ℓ} {B : Type κ} (m : Run A) (f : A → Run B)
    → IsQuiet m
    → ((a : A) → IsQuiet (f a))
    → IsQuiet (m >>= f)
IsQuiet-bind m f (ok a, hm) hf = ((hf a).0, λ c. rw (hm c) ((hf a).1 c))
IsQuiet-bind m f (err e, hm) hf = (err e, λ c. rw (hm c))
IsQuiet-bind m f (panic, hm) hf = (panic, λ c. rw (hm c))

pub IsQuiet-if {ℓ} :
    {A : Type ℓ} (b : Bool) (m k : Run A) → IsQuiet m → IsQuiet k → IsQuiet (if b then m else k)
IsQuiet-if true m k hm hk = hm
IsQuiet-if false m k hm hk = hk

pub IsQuiet-slice : (i j : ℕ) (b : Bytes) → IsQuiet (slice i j b)
unfolding slice
IsQuiet-slice i j b =
    IsQuiet-if (ltb j i || ltb (length b) j) fault (pure (drop i (take j b))) (panic, λ c. refl)
      (ok (drop i (take j b)), λ c. refl)

pub new_challenge-IsQuiet : (body : Bytes) → IsQuiet (new_challenge body)
unfolding new_challenge
new_challenge-IsQuiet body =
    IsQuiet-if (ltb (length body) 19) (fail (new_challenge_short (length body))) _
      (err (new_challenge_short (length body)), λ c. refl)
      (IsQuiet-bind (slice 9 13 body) _ (IsQuiet-slice 9 13 body) (λ ch.
        IsQuiet-bind (slice 17 19 body) _ (IsQuiet-slice 17 19 body) (λ n.
          IsQuiet-if (ltb (length body) (19 + big_endian 0 n)) (fail name_truncated) _
            (err name_truncated, λ c. refl)
            (IsQuiet-bind (slice 19 ((19 + big_endian 0 n) % 2 ^ 16) body) _
              (IsQuiet-slice 19 ((19 + big_endian 0 n) % 2 ^ 16) body)
              (λ name. (ok (big_endian 0 ch, name), λ c. refl))))))

pub old_challenge-IsQuiet : (body : Bytes) → IsQuiet (old_challenge body)
unfolding old_challenge
old_challenge-IsQuiet body =
    IsQuiet-if (ltb (length body) 11) (fail (old_challenge_short (length body))) _
      (err (old_challenge_short (length body)), λ c. refl)
      (IsQuiet-bind (slice 7 11 body) _ (IsQuiet-slice 7 11 body) (λ ch.
        IsQuiet-bind (slice 11 (length body) body) _ (IsQuiet-slice 11 (length body) body)
          (λ name. (ok (big_endian 0 ch, name), λ c. refl))))

pub challenge_of-IsQuiet : (body : Bytes) → IsQuiet (challenge_of body)
unfolding challenge_of
challenge_of-IsQuiet [] = (err empty_challenge, λ c. refl)
challenge_of-IsQuiet (b ∷ bs) =
    IsQuiet-if (b == b'N') (new_challenge (b ∷ bs))
      (if b == b'n' then old_challenge (b ∷ bs) else fail (unexpected_challenge b))
      (new_challenge-IsQuiet (b ∷ bs))
      (IsQuiet-if (b == b'n') (old_challenge (b ∷ bs)) (fail (unexpected_challenge b))
        (old_challenge-IsQuiet (b ∷ bs)) (err (unexpected_challenge b), λ c. refl))

pub IsQuiet-index : (i : ℕ) (b : Bytes) → IsQuiet (index i b)
unfolding index
IsQuiet-index i [] = (panic, λ c. refl)
IsQuiet-index zero (b ∷ bs) = (ok b, λ c. refl)
IsQuiet-index (suc i) (b ∷ bs) = IsQuiet-index i bs

pub status_of-IsQuiet : (body : Bytes) → IsQuiet (status_of body)
unfolding status_of
status_of-IsQuiet body =
    IsQuiet-if (lacks_tag 2 b's' body) _ (slice 1 (length body) body)
      (IsQuiet-bind (index 0 body) _ (IsQuiet-index 0 body)
        (λ b. (err (expected_status b), λ c. refl)))
      (IsQuiet-slice 1 (length body) body)

pub check_ack-IsQuiet : (d body : Bytes) → IsQuiet (check_ack d body)
unfolding check_ack
check_ack-IsQuiet d body =
    IsQuiet-if (lacks_tag 17 b'a' body) _ _
      (IsQuiet-bind (index 0 body) _ (IsQuiet-index 0 body)
        (λ b. (err (expected_ack b), λ c. refl)))
      (IsQuiet-bind (slice 1 17 body) _ (IsQuiet-slice 1 17 body) (λ got.
        IsQuiet-if (text_eq got d) (pure tt) (fail digest_mismatch) (ok tt, λ c. refl)
          (err digest_mismatch, λ c. refl)))

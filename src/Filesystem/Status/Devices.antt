-- ===== src/Filesystem/Status/Devices.antt =====
-- The tests for devices agree with one another.
use libsarus.Base.{ℕ, Text, true, ◌≡◌, ◌↔◌, ◌⊎◌, inl, inr, refl, arith}
use libsarus.Error.{ok, ◌>>=◌}
use libsarus.Filesystem.Status.{
  block_device, character_device, Stat, StatResult, status, failed, is_device_file, get_device_id,
  get_device_type,
}

module _ (stat : Text → StatResult) (path : Text) where
  with_status :
      (r : StatResult) (t : ℕ)
      → stat path ≡ r
      → (get_device_type stat path ≡ ok t) ↔ (
          (is_device_file stat path ≡ ok true)
          × (sb : Stat) × (stat path ≡ status sb)
          × (((sb.st_type ≡ block_device) × (t ≡ b'b'))
              ⊎ ((sb.st_type ≡ character_device) × (t ≡ b'c'))))
  unfolding get_device_type is_device_file
  with_status (status sb) t e =
      ((λ h. (ground arith, sb, e, ground arith)), λ (h, sb', e', cases). ground arith)
  with_status (failed reason) t e =
      ((λ h. absurd (ground arith)), λ (h, sb', e', cases). absurd (ground arith))

  -- `getDeviceType` returns exactly on what `isDeviceFile` accepts: 'b' for a block device and
  -- 'c' for a character device.
  pub get_device_type-is_device_file :
      (t : ℕ)
      → (get_device_type stat path ≡ ok t) ↔ (
          (is_device_file stat path ≡ ok true)
          × (sb : Stat) × (stat path ≡ status sb)
          × (((sb.st_type ≡ block_device) × (t ≡ b'b'))
              ⊎ ((sb.st_type ≡ character_device) × (t ≡ b'c'))))
  get_device_type-is_device_file t = with_status (stat path) t refl

-- stat(2) tells a block or a character device with the id; the type is 'b' or 'c'.
abbrev pub IsDevice : (Text → StatResult) → Text → ℕ → ℕ → Type 0
IsDevice stat path i t =
    (sb : Stat) × (stat path ≡ status sb)
    × (sb.st_rdev ≡ i)
    × (((sb.st_type ≡ block_device) × (t ≡ b'b')) ⊎ ((sb.st_type ≡ character_device) × (t ≡ b'c')))

module _ (stat : Text → StatResult) (path : Text) (i t : ℕ) where
  id_and_status :
      (r : StatResult)
      → stat path ≡ r
      → IsDevice stat path i t ↔ (
          (get_device_id stat path ≡ ok i)
          × (sb : Stat) × (stat path ≡ status sb)
          × (((sb.st_type ≡ block_device) × (t ≡ b'b'))
              ⊎ ((sb.st_type ≡ character_device) × (t ≡ b'c'))))
  unfolding get_device_id
  id_and_status (status sb) e = (
    (λ (sb', e', id, cases). (ground arith, sb', e', cases)),
    λ (h, sb', e', cases). (sb', e', ground arith, cases),
  )
  id_and_status (failed reason) e =
      ((λ (sb', e', id, cases). cc (e, e')), λ (h, sb', e', cases). cc (e, e'))

  device_file :
      (sb : Stat)
      → stat path ≡ status sb
      → ((sb.st_type ≡ block_device) × (t ≡ b'b')) ⊎ ((sb.st_type ≡ character_device) × (t ≡ b'c'))
      → is_device_file stat path ≡ ok true
  unfolding is_device_file
  device_file sb e (inl (is, _)) = rw (e, is_device_file, ◌>>=◌, is) refl
  device_file sb e (inr (is, _)) = rw (e, is_device_file, ◌>>=◌, is) refl

  -- The device file, its id and its type, as the three functions tell them.
  pub IsDevice_iff : IsDevice stat path i t ↔ (
      (is_device_file stat path ≡ ok true)
      × (get_device_id stat path ≡ ok i)
      × (get_device_type stat path ≡ ok t))
  IsDevice_iff = (
    (λ (sb, e, id, cases).
        let (found, _, _, _) = (id_and_status (stat path) refl).0 (sb, e, id, cases) in
        let dev = device_file sb e cases in
        (dev, found, (get_device_type-is_device_file stat path t).1 (dev, sb, e, cases))),
    λ (dev, found, type).
        let (_, sb, e, cases) = (get_device_type-is_device_file stat path t).0 type in
        (id_and_status (stat path) refl).1 (found, sb, e, cases),
  )

-- ===== src/Vendor/Samples.antt =====
-- safeVendorPackagePath on a concrete name.
use gomposer.Prelude.{◌≡◌, ◌++◌, ◌∷◌, ◌↔◌, some, true, []}
use gomposer.Prelude.Bytes.{Bytes, codes}
use gomposer.Vendor.Paths.{CleanPath, vendor_root, safe_vendor_package_path}
use gomposer.Vendor.Names.{IsPlain, safe_vendor_package_path_iff}

abbrev target : CleanPath
target = record {
  rooted = true;
  names = codes "lib" ∷ codes "acme" ∷ codes "vendor" ∷ codes "app" ∷ [];
}

safe_vendor_package_path_iff_example :
    (safe_vendor_package_path (codes "/app") (codes "acme/lib") ≡ some target) ↔ (
      (a : Bytes) × (b : Bytes) × (codes "acme/lib" ≡ a ++ b'/' ∷ b)
      × IsPlain a
      × IsPlain b
      × (target ≡ record {
        rooted = (vendor_root (codes "/app")).rooted;
        names = b ∷ a ∷ (vendor_root (codes "/app")).names;
      }))
safe_vendor_package_path_iff_example =
    safe_vendor_package_path_iff (codes "/app") (codes "acme/lib") target

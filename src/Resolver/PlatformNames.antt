-- ===== src/Resolver/PlatformNames.antt =====
-- The two tests for a platform requirement: isPlatformPackage of internal/resolver/decide.go and IsPlatformReq of
-- internal/platform/check.go.
use gomposer.Prelude.{true, false, ◌++◌, ◌≡◌, arith}
use gomposer.Prelude.Bytes.{Bytes, codes}
use gomposer.Strings.{has_prefix, has_byte, after_prefix}
use gomposer.Platform.{is_platform_req}
use gomposer.Resolver.Decide.{is_platform_package}

-- A package whose vendor begins with "ext-" is a platform requirement for the resolver, which drops it, and none
-- for the platform check, which skips it too.
platform_tests_differ :
    (rest : Bytes)
    → has_byte rest b'/' ≡ true
    → (is_platform_package (codes "ext-" ++ rest) ≡ true)
      × (is_platform_req (codes "ext-" ++ rest) ≡ false)
unfolding is_platform_package is_platform_req has_byte has_prefix after_prefix
platform_tests_differ rest h = (ground arith, ground arith)

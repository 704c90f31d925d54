-- ===== src/Throttle/Keys.antt =====
-- The keys of the throttles' dictionaries. Python's text methods and its HMAC-SHA256 are arguments;
-- nothing is assumed of them.
use Prim.Native.String.{◌++◌}
use opsflow.Prelude.{String}

pub record TextRuntime : Type 0 where
  pub strip : String → String
  pub lower : String → String
  -- `hmac.new(secret, message, sha256).hexdigest()`
  pub hmac_sha256 : String → String → String

-- `strip().lower()`
abbrev pub normalized : TextRuntime → String → String
normalized text value = text.lower (text.strip value)

-- `InMemoryLoginThrottle._opaque_key`, of the message `f"{namespace}:{value}"`
unfoldable pub opaque_key : TextRuntime → String → String → String → String
opaque_key text secret namespace value = text.hmac_sha256 secret (◌++◌ namespace (◌++◌ ":" value))

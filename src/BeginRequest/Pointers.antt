-- ===== src/BeginRequest/Pointers.antt =====
-- `OnBeginRequest` makes no call on a null response where IIS has one.
use Prim.Native.String.{String}

-- ===== src/Transport/Android/Found.antt =====
-- What a discovery over the JNI reports.
use pax.Str.{Str}
use pax.Transport.Radio.{Radio}

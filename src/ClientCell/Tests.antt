-- ===== src/ClientCell/Tests.antt =====
-- The ring and the destructor of a connection on concrete rings.
use linux_tcp_lib.Prelude.{[]}
use linux_tcp_lib.ClientCell.{release_front}
use linux_tcp_lib.ClientCell.Ring.{IsRing, release_front-IsRing}
use linux_tcp_lib.Fixtures.{sc, loaded, loaded-IsRing}

release_front-loaded : IsRing (release_front loaded) []
release_front-loaded = release_front-IsRing loaded sc [] loaded-IsRing

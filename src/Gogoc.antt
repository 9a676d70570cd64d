-- ===== src/Gogoc.antt =====
-- gogoc/gogoc-tsp, the TSP client of Freenet6: redirection to other brokers (tsp_redirect.c), requests over
-- UDP (net_rudp.c) and sessions with a broker (tsp_cap.c, tsp_auth.c, tsp_client.c, tsp_net.c),
-- and the ICMP echo engine of the keep-alive (icmp_echo_engine.c).
pub mod Redirect
pub mod Rudp
pub mod Capability
pub mod Session
pub mod Frame
pub mod Loop
pub mod Echo
pub mod Xml

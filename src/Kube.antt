-- ===== src/Kube.antt =====
-- The Kubernetes objects that the program reads: quantities behind an interface, and the fields
-- that the code uses of containers, pods and autoscalers.
pub mod Quantity
pub mod Objects
